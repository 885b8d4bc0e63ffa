-- ===== src/MarketBin/Fields.antt =====
-- sim/binpack.py: the fields of the MKTD file, as `struct` packs them, least byte first.
use keel_trader.Base.{
  ℕ, ◌+◌, ◌*◌, ◌/◌, ◌%◌, ◌^◌, ◌≡◌, List, [], ◌∷◌, ◌++◌, map, Option, some, ltb, length,
  if◌then◌else◌, arith, ◌<◌, refl, Option-cases, inl, inr, All, is_some, is_some-eq, true,
}
use keel_trader.Outcome.{
  Result, ok, err, struct_error, overflow_error, ◌>>=◌, or_error, Result-cases,
}

abbrev pub Bytes : Type 0
Bytes = List ℕ

-- `struct.pack("<I", n)`, which raises unless the number fits into 32 bits.
unfoldable pub pack_u32 : ℕ → Result Bytes
pack_u32 n =
    if ltb n (2 ^ 32)
    then ok (n % 256 ∷ n / 256 % 256 ∷ n / 65_536 % 256 ∷ n / 16_777_216 % 256 ∷ [])
    else err struct_error

-- A field read, and what is left.
unfoldable pub unpack_u32 : Bytes → Result (ℕ × Bytes)
unpack_u32 (a ∷ b ∷ c ∷ d ∷ rest) = ok (a + b * 256 + c * 65_536 + d * 16_777_216, rest)
unpack_u32 _ = err struct_error

-- What `struct` does for "<f": four bytes, or an `OverflowError` beyond the range. A float is
-- rounded to the nearest single-precision one, and reading gives that one.
pub record FloatCodec (F : Type 0) : Type 0 where
  pub pack : F → Option (ℕ × ℕ × ℕ × ℕ)
  pub unpack : ℕ × ℕ × ℕ × ℕ → F
  pub single : F → F
  pub unpack-pack : (x : F) (w : ℕ × ℕ × ℕ × ℕ) → pack x ≡ some w → unpack w ≡ single x

module _ {F : Type 0} (codec : FloatCodec F) where
  -- `struct.pack(f"<{len(xs)}f", *xs)`
  unfoldable pub pack_floats : List F → Result Bytes
  pack_floats [] = ok []
  pack_floats (x ∷ xs) = do
    (a, b, c, d) ← or_error (codec.pack x) overflow_error
    rest ← pack_floats xs
    ok (a ∷ b ∷ c ∷ d ∷ rest)

  -- `struct.unpack(f"<{count}f", raw)`, for as many floats as there are bytes for.
  unfoldable pub unpack_floats : Bytes → Result (List F)
  unpack_floats [] = ok []
  unpack_floats (a ∷ b ∷ c ∷ d ∷ rest) = do
    xs ← unpack_floats rest
    ok (codec.unpack (a, b, c, d) ∷ xs)
  unpack_floats _ = err struct_error

  -- The float has a single-precision one, so that packing it does not raise.
  abbrev pub Packs : F → Type 0
  Packs x = is_some (codec.pack x) ≡ true

  pub unpack_floats-pack_floats :
      (xs : List F)
      → All Packs xs
      → (b : Bytes) × (pack_floats xs ≡ ok b)
        × (length b ≡ length xs * 4)
        × (unpack_floats b ≡ ok (map (codec.single) xs))
  unfolding pack_floats unpack_floats
  unpack_floats-pack_floats [] h = ([], refl, refl, refl)
  unpack_floats-pack_floats (x ∷ xs) (h, hs) =
      let (w, e) = is_some-eq (codec.pack x) h in
      let (b, f, n, g) = unpack_floats-pack_floats xs hs in
      (
        w.0 ∷ w.1 ∷ w.2 ∷ w.3 ∷ b,
        ground arith,
        omega (arith, n),
        ground (arith, codec.unpack-pack x w e),
      )

  pub pack_floats-append :
      (xs ys : List F)
      → pack_floats (xs ++ ys) ≡ (do b ← pack_floats xs; c ← pack_floats ys; ok (b ++ c))
  unfolding pack_floats
  pack_floats-append [] ys = elim (Result-cases (pack_floats ys)) [
    | inl (e, f) ↦ ground (arith, f)
    | inr (c, f) ↦ ground (arith, f)
  ]
  pack_floats-append (x ∷ xs) ys = elim (Option-cases (codec.pack x)) [
    | inl e ↦ rw e refl
    | inr (w, e) ↦
        rw (e, pack_floats-append xs ys)
          (elim (Result-cases (pack_floats xs)) [
            | inl (_, f) ↦ rw f refl
            | inr (b, f) ↦ elim (Result-cases (pack_floats ys)) [
              | inl (_, g) ↦ rw (f, g) refl
              | inr (c, g) ↦ rw (f, g) refl
            ]
          ])
  ]

-- The least four digits of a number to the base 256, and the number that digits stand for.
abbrev pub digits : ℕ → Bytes
digits n = n % 256 ∷ n / 256 % 256 ∷ n / 65_536 % 256 ∷ n / 16_777_216 % 256 ∷ []

pub pack_u32-digits : (n : ℕ) → n < 2 ^ 32 → pack_u32 n ≡ ok (digits n)
unfolding pack_u32
pack_u32-digits n h = ground arith

pub digits_sum :
    (n : ℕ)
    → n < 2 ^ 32
    → n % 256 + n / 256 % 256 * 256 + n / 65_536 % 256 * 65_536 + n / 16_777_216 % 256 * 16_777_216
      ≡ n
digits_sum n h = omega arith
