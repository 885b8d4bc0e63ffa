-- ===== src/MarketBin/Blocks.antt =====
-- sim/binpack.py: the blocks of floats, written and read.
use mathlib.Core.List.{append_assoc}
use keel_trader.Base.{
  ℕ, zero, suc, ◌*◌, List, [], ◌∷◌, ◌++◌, map, length, arith, ◌≡◌, refl, ap, sym, ◌∙◌, All,
  length-append, length-map, take-append, drop-append,
}
use keel_trader.Outcome.{Result, ok, ◌>>=◌}
use keel_trader.MarketBin.Fields.{Bytes, FloatCodec, pack_floats, pack_floats-append}
use keel_trader.MarketBin.{pack_cell, pack_row, pack_block, cut_row, cut_block}

abbrev pub Row : Type 0 → Type 0
Row F = List (List F)

-- The values of a row and of a block, in the order of the file.
abbrev pub row_values : {F : Type 0} → Row F → List F
row_values [] = []
row_values (cell ∷ row) = cell ++ row_values row

abbrev pub values : {F : Type 0} → List (Row F) → List F
values [] = []
values (row ∷ block) = row_values row ++ values block

-- [S][F] and [T][S][F]
abbrev pub IsRow : {F : Type 0} (per ns : ℕ) → Row F → Type 0
IsRow per ns row = (length row ≡ ns) × All (λ cell. length cell ≡ per) row

abbrev pub IsBlock : {F : Type 0} (per ns nt : ℕ) → List (Row F) → Type 0
IsBlock per ns nt block = (length block ≡ nt) × All (IsRow per ns) block

length-row_values :
    {F : Type 0} (per ns : ℕ) (row : Row F) → IsRow per ns row → length (row_values row) ≡ ns * per
length-row_values per ns [] (n, h) = ground arith
length-row_values per zero (cell ∷ row) (n, h) = ground arith
length-row_values per (suc ns) (cell ∷ row) (n, (h, hs)) = grind (
  arith,
  length-append cell (row_values row),
  length-row_values per ns row (omega (arith, n), hs),
)

pub length-values :
    {F : Type 0} (per ns nt : ℕ) (block : List (Row F))
    → IsBlock per ns nt block
    → length (values block) ≡ nt * ns * per
length-values per ns nt [] (n, h) = ground arith
length-values per ns zero (row ∷ block) (n, h) = ground arith
length-values per ns (suc nt) (row ∷ block) (n, (h, hs)) = grind (
  arith,
  length-append (row_values row) (values block),
  length-row_values per ns row h,
  length-values per ns nt block (omega (arith, n), hs),
)

-- Rounding of each value.
abbrev pub map_row : {F : Type 0} (f : F → F) → Row F → Row F
map_row f row = map (map f) row

abbrev pub map_block : {F : Type 0} (f : F → F) → List (Row F) → List (Row F)
map_block f block = map (map_row f) block

map-append : {F : Type 0} (f : F → F) (xs ys : List F) → map f (xs ++ ys) ≡ map f xs ++ map f ys
map-append f [] ys = refl
map-append f (x ∷ xs) ys = ap (λ q. f x ∷ q) (map-append f xs ys)

module _ {F : Type 0} (f : F → F) where
  map_values : (xs ys rest : List F) → map f (xs ++ ys) ++ rest ≡ map f xs ++ (map f ys ++ rest)
  map_values xs ys rest = rw (map-append f xs ys, append_assoc (map f xs) (map f ys) rest) refl

  cut_row-values :
      (per ns : ℕ) (row : Row F) (rest : List F)
      → IsRow per ns row
      → cut_row per ns (map f (row_values row) ++ rest) ≡ (map_row f row, rest)
  cut_row-values per zero [] rest (n, h) = refl
  cut_row-values per (suc ns) [] rest (n, h) = ground arith
  cut_row-values per zero (cell ∷ row) rest (n, h) = ground arith
  cut_row-values per (suc ns) (cell ∷ row) rest (n, (h, hs)) =
      let left = map f (row_values row) ++ rest in
      let e : length (map f cell) ≡ per = length-map f cell ∙ h in
      rw
        (
          map_values cell (row_values row) rest,
          take-append (map f cell) left per e,
          drop-append (map f cell) left per e,
          cut_row-values per ns row rest (omega (arith, n), hs),
        )
        refl

  pub cut_block-values :
      (per ns nt : ℕ) (block : List (Row F)) (rest : List F)
      → IsBlock per ns nt block
      → cut_block per ns nt (map f (values block) ++ rest) ≡ map_block f block
  cut_block-values per ns zero [] rest (n, h) = refl
  cut_block-values per ns (suc nt) [] rest (n, h) = ground arith
  cut_block-values per ns zero (row ∷ block) rest (n, h) = ground arith
  cut_block-values per ns (suc nt) (row ∷ block) rest (n, (h, hs)) =
      rw
        (
          map_values (row_values row) (values block) rest,
          cut_row-values per ns row (map f (values block) ++ rest) h,
          cut_block-values per ns nt block rest (omega (arith, n), hs),
        )
        refl

module _ {F : Type 0} (codec : FloatCodec F) where
  -- What was packed in turn is what is packed at once.
  pack_append :
      (xs ys : List F) {r s : Result Bytes}
      → r ≡ pack_floats codec xs
      → s ≡ pack_floats codec ys
      → (do b ← r; c ← s; ok (b ++ c)) ≡ pack_floats codec (xs ++ ys)
  pack_append xs ys e f = rw (e, f) (sym (pack_floats-append codec xs ys))

  pack_cell-floats :
      (per : ℕ) (cell : List F)
      → length cell ≡ per
      → pack_cell codec per cell ≡ pack_floats codec cell
  unfolding pack_cell
  pack_cell-floats per cell h = ground arith

  pack_row-values :
      (per ns : ℕ) (row : Row F)
      → IsRow per ns row
      → pack_row codec per ns row ≡ pack_floats codec (row_values row)
  unfolding pack_row pack_floats
  pack_row-values per zero [] (n, h) = refl
  pack_row-values per (suc ns) [] (n, h) = ground arith
  pack_row-values per zero (cell ∷ row) (n, h) = ground arith
  pack_row-values per (suc ns) (cell ∷ row) (n, (h, hs)) =
      pack_append cell (row_values row) (pack_cell-floats per cell h)
        (pack_row-values per ns row (omega (arith, n), hs))

  pub pack_block-values :
      (per ns nt : ℕ) (block : List (Row F))
      → IsBlock per ns nt block
      → pack_block codec per ns nt block ≡ pack_floats codec (values block)
  unfolding pack_block pack_floats
  pack_block-values per ns zero [] (n, h) = refl
  pack_block-values per ns (suc nt) [] (n, h) = ground arith
  pack_block-values per ns zero (row ∷ block) (n, h) = ground arith
  pack_block-values per ns (suc nt) (row ∷ block) (n, (h, hs)) =
      pack_append (row_values row) (values block) (pack_row-values per ns row h)
        (pack_block-values per ns nt block (omega (arith, n), hs))
