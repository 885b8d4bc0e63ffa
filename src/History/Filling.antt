-- ===== src/History/Filling.antt =====
-- sim/kraken_data.py: the aligned bars.
use mathlib.Core.Path.{subst}
use keel_trader.Base.{
  ltb, List-cases, ℕ, zero, suc, ◌+◌, ◌*◌, ◌≤◌, ◌<◌, nat_eq, ◌≡◌, refl, ap, Option, none, some,
  List, [], ◌∷◌, All, arith, inl, inr, ◌⊎◌, All-map, ◌-◌, ◌/◌, map, filter, Bool-cases,
  Option-cases,
}
use keel_trader.Base.Dict.{lookup}
use keel_trader.Base.Text.{Text, text_eq}
use keel_trader.Double.{Double}
use keel_trader.Outcome.{ok, Result-cases}
use keel_trader.History.{
  Ohlcv, Bars, Series, Aligned, flat_bar, no_bar, fill, grid_of, times, greatest, least, bars_of,
  has_bars, first_time, final_time, align_from, align_to_grid, ms_per_bar,
}
use keel_trader.History.Paging.{ms_per_bar-ge}

module _ {F : Type 0} ⦃d : Double F⦄ (bars : Bars F) where
  -- The latest bar among some times, the latest time first.
  abbrev pub latest : List ℕ → Option (Ohlcv F)
  latest [] = none
  latest (ts ∷ earlier) = elim (lookup ts bars) as (λ _. Option (Ohlcv F)) [
    | some b ↦ some b
    | none ↦ latest earlier
  ]

  -- The prices at a time: its bar, or else the close of the latest bar before, without volume, or
  -- zeros if there is none.
  abbrev pub price_at : (ts : ℕ) → (earlier : List ℕ) → Ohlcv F
  price_at ts earlier = elim (lookup ts bars) as (λ _. Ohlcv F) [
    | some b ↦ b
    | none ↦ elim (latest earlier) as (λ _. Ohlcv F) [ some b ↦ flat_bar (b.close) | none ↦ no_bar ]
  ]

  -- The prices at each time of a grid.
  abbrev pub prices_on : (earlier grid : List ℕ) → List (Ohlcv F)
  prices_on earlier [] = []
  prices_on earlier (ts ∷ grid) = price_at ts earlier ∷ prices_on (ts ∷ earlier) grid

-- The last bar of the loop has the close of the latest bar.
Carries : {F : Type 0} → Option (Ohlcv F) → Option (Ohlcv F) → Type 0
Carries {F = F} last_bar late =
    ((last_bar ≡ none) × (late ≡ none))
    ⊎ ((a : Ohlcv F) × (b : Ohlcv F) × (last_bar ≡ some a) × (late ≡ some b) × (a.close ≡ b.close))

module _ {F : Type 0} ⦃d : Double F⦄ (bars : Bars F) where
  fill-prices_on :
      (last_bar : Option (Ohlcv F)) (earlier grid : List ℕ)
      → Carries last_bar (latest bars earlier)
      → fill bars last_bar grid ≡ prices_on bars earlier grid
  unfolding fill Carries
  fill-prices_on last_bar earlier [] h = refl
  fill-prices_on last_bar earlier (ts ∷ grid) h = elim (Option-cases (lookup ts bars)) [
    | inr (b, e) ↦
        rw (e, fill, prices_on, price_at)
          (ap (λ q. b ∷ q)
            (fill-prices_on (some b) (ts ∷ earlier) grid
              (inr (b, b, refl, rw (e, latest) refl, refl))))
    | inl e ↦ elim h [
      | inl (f, g) ↦
          rw (e, f, g, fill, prices_on, price_at)
            (ap (λ q. no_bar ∷ q)
              (fill-prices_on last_bar (ts ∷ earlier) grid (inl (f, rw (e, latest) g))))
      | inr (a, b, f, g, c) ↦
          rw (e, f, g, c, fill, prices_on, price_at)
            (ap (λ q. flat_bar (b.close) ∷ q)
              (fill-prices_on (some (flat_bar (b.close))) (ts ∷ earlier) grid
                (inr (flat_bar (b.close), b, refl, rw (e, latest) g, refl))))
    ]
  ]

times-bounds :
    (start step count : ℕ)
    → All (λ ts. (start ≤ ts) × (ts + step ≤ start + count * step)) (times start step count)
times-bounds start step zero = tt
times-bounds start step (suc n) = (
  (omega arith, grind arith),
  All-map (λ ts. (start + step ≤ ts) × (ts + step ≤ start + step + n * step))
      (λ ts. (start ≤ ts) × (ts + step ≤ start + suc n * step)) (times (start + step) step n)
      (λ ts (h, k). (omega (arith, h), grind arith)) (times-bounds (start + step) step n),
)

count_bound : (n step : ℕ) → 0 < step → n / step * step ≤ n
count_bound n step h = grind arith

-- The times of the grid lie from the start on and less than a step past the last.
grid_of-bounds :
    (first last step : ℕ)
    → first ≤ last
    → 0 < step
    → All (λ ts. (first ≤ ts) × (ts < last + step)) (grid_of first last step)
grid_of-bounds first last step h k =
    let n = last + step - first + step - 1 in
    All-map (λ ts. (first ≤ ts) × (ts + step ≤ first + n / step * step))
      (λ ts. (first ≤ ts) × (ts < last + step)) (grid_of first last step)
      (λ ts (a, b). (a, omega (arith, b, count_bound n step k, h, k)))
      (times-bounds first step (n / step))

greatest-ge : (f : Text → ℕ) (xs : List Text) → All (λ s. f s ≤ greatest (map f xs)) xs
greatest-ge f [] = tt
greatest-ge f (x ∷ xs) = (
  omega arith,
  All-map (λ s. f s ≤ greatest (map f xs)) (λ s. f s ≤ greatest (map f (x ∷ xs))) xs
      (λ s h. omega (arith, h)) (greatest-ge f xs),
)

least-le : (f : Text → ℕ) (xs : List Text) → All (λ s. least (map f xs) ≤ f s) xs
least-le f [] = tt
least-le f (x ∷ []) = (omega arith, tt)
least-le f (x ∷ y ∷ xs) = (
  omega arith,
  All-map (λ s. least (map f (y ∷ xs)) ≤ f s) (λ s. least (map f (x ∷ y ∷ xs)) ≤ f s) (y ∷ xs)
      (λ s h. omega (arith, h)) (least-le f (y ∷ xs)),
)

All-both :
    {A : Type 0} (P Q R : A → Type 0) (xs : List A)
    → ((x : A) → P x → Q x → R x)
    → All P xs
    → All Q xs
    → All R xs
All-both P Q R [] h p q = tt
All-both P Q R (x ∷ xs) h (p, ps) (q, qs) = (h x p q, All-both P Q R xs h ps qs)

module _ {F : Type 0} ⦃d : Double F⦄ where
  -- The grid lies between the first bar of each kept symbol and a step past its last.
  abbrev pub IsCovered : Series F → (step : ℕ) → (grid : List ℕ) → Text → Type 0
  IsCovered series step grid s =
      All (λ ts. (first_time (bars_of series s) ≤ ts) × (ts < final_time (bars_of series s) + step))
        grid

  -- What the loops make: the kept symbols, their prices by the grid, and a grid that each covers.
  abbrev pub IsAligned : Series F → (present : List Text) → (step : ℕ) → Aligned F → Type 0
  IsAligned series present step a =
      (a.kept ≡ present)
      × (a.prices ≡ map (λ s. prices_on (bars_of series s) [] (a.grid)) present)
      × All (IsCovered series step (a.grid)) present

  filled :
      (series : Series F) (grid : List ℕ) (present : List Text)
      → map (λ s. fill (bars_of series s) none grid) present
        ≡ map (λ s. prices_on (bars_of series s) [] grid) present
  unfolding Carries
  filled series grid [] = refl
  filled series grid (s ∷ present) = cc (
    fill-prices_on (bars_of series s) none [] grid (inl (refl, refl)),
    filled series grid present,
  )

  align_from-IsAligned :
      (series : Series F) (present : List Text) (step : ℕ) {a : Aligned F}
      → 0 < step
      → align_from series present step ≡ ok a
      → IsAligned series present step a
  align_from-IsAligned series present step {a = a} k e =
      let firsts : Text → ℕ = λ s. first_time (bars_of series s) in
      let lasts : Text → ℕ = λ s. final_time (bars_of series s) in
      let first = greatest (map firsts present) in
      let last = least (map lasts present) in
      let grid = grid_of first last step in
      elim (Bool-cases (ltb last first)) [
        | inl b ↦ ground arith
        | inr b ↦
            let made : Aligned F = record {
              kept = present;
              grid = grid;
              prices = map (λ s. fill (bars_of series s) none grid) present;
            } in
            let same_result : made ≡ a = ground arith in
            subst (IsAligned series present step) same_result (
              refl,
              filled series grid present,
              All-both (λ s. firsts s ≤ first) (λ s. last ≤ lasts s) (IsCovered series step grid)
                  present
                  (λ s h g.
                    All-map (λ ts. (first ≤ ts) × (ts < last + step))
                      (λ ts. (firsts s ≤ ts) × (ts < lasts s + step)) grid
                      (λ ts (x, y). (omega (arith, x, h), omega (arith, y, g)))
                      (grid_of-bounds first last step (ground arith) k))
                  (greatest-ge firsts present) (least-le lasts present),
            )
      ]

  -- When the alignment returns, the symbols kept are those that have bars; at each time of the grid
  -- the prices of each are those of its bar, or without one the close of its latest bar on the grid
  -- before, with no volume, or zeros if there is none; and the grid starts at or after the first
  -- bar of each and ends less than a step past its last.
  pub align_to_grid-IsAligned :
      (series : Series F) (symbols : List Text) (timeframe : Text) {a : Aligned F}
      → align_to_grid series symbols timeframe ≡ ok a
      → (step : ℕ) × (ms_per_bar timeframe ≡ ok step)
        × IsAligned series (filter (has_bars series) symbols) step a
  unfolding align_to_grid
  align_to_grid-IsAligned series symbols timeframe {a = a} e =
      elim (List-cases (filter (has_bars series) symbols)) [
        | inl f ↦ ground arith
        | inr (x, rest, f) ↦ elim (Result-cases (ms_per_bar timeframe)) [
          | inl (_, g) ↦ ground arith
          | inr (step, g) ↦ (
            step,
            g,
            align_from-IsAligned series (filter (has_bars series) symbols) step
                (omega (arith, ms_per_bar-ge timeframe step g)) (ground arith),
          )
        ]
      ]
