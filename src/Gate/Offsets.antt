-- ===== src/Gate/Offsets.antt =====
-- research/eval.py: `generate_offsets`. The draws of `random.Random(seed)` are a parameter: the
-- number of the draw and the two ends of `randint`, which both belong to its range.
use keel_trader.Base.{
  ℕ, zero, suc, ◌+◌, ◌-◌, ◌≤◌, min, ◌≡◌, refl, Option, none, some, List, [], ◌∷◌, if◌then◌else◌,
  leb, length, All, arith, Bool-cases, Option-cases, inl, inr,
}
use keel_trader.Base.Int.{pos_part}
use keel_trader.Double.{Double}
use keel_trader.Outcome.{Result, ok, err, value_error}

abbrev pub RandInt : Type 0
RandInt = (draw lo hi : ℕ) → ℕ

-- What Python promises of `randint(lo, hi)`.
abbrev pub IsInRange : RandInt → Type 0
IsInRange randint =
    (draw lo hi : ℕ) → lo ≤ hi → (lo ≤ randint draw lo hi) × (randint draw lo hi ≤ hi)

-- So many draws, from one on.
abbrev pub draws : RandInt → (lo hi : ℕ) → (draw count : ℕ) → List ℕ
draws randint lo hi draw zero = []
draws randint lo hi draw (suc count) = randint draw lo hi ∷ draws randint lo hi (draw + 1) count

-- The range of the offsets: the two parts, or the whole if they leave nothing between them.
abbrev pub range_of : ℕ → ℕ → ℕ → ℕ × ℕ
range_of max_offset lo hi =
    if leb (min max_offset hi) lo then (0, max_offset) else (lo, min max_offset hi)

-- An episode from the offset has all its steps, and one more, within the data.
abbrev pub Fits : (num_timesteps window_steps : ℕ) → ℕ → Type 0
Fits num_timesteps window_steps off = off + window_steps + 1 ≤ num_timesteps

draws-Fits :
    (randint : RandInt) (num_timesteps window_steps lo hi draw count : ℕ)
    → IsInRange randint
    → lo ≤ hi
    → hi + window_steps + 1 ≤ num_timesteps
    → All (Fits num_timesteps window_steps) (draws randint lo hi draw count)
      × (length (draws randint lo hi draw count) ≡ count)
draws-Fits randint t w lo hi draw zero fair h k = (tt, refl)
draws-Fits randint t w lo hi draw (suc count) fair h k =
    let (above, below) = fair draw lo hi h in
    let (all, n) = draws-Fits randint t w lo hi (draw + 1) count fair h k in
    ((omega (arith, below, k), all), omega (arith, n))

module _ {F : Type 0} ⦃d : Double F⦄ where
  -- `int(max_offset * frac)`, with a negative product as 0: it is then below every end that counts.
  abbrev pub part : ℕ → F → Option ℕ
  part max_offset frac = elim (d.trunc (d.mul (d.lit max_offset 1) frac)) [
    | none ↦ none
    | some z ↦ some (pos_part z)
  ]

  unfoldable pub generate_offsets :
      RandInt → (num_timesteps n_windows window_steps : ℕ) → (lo_frac hi_frac : F) → Result (List ℕ)
  generate_offsets randint num_timesteps n_windows window_steps lo_frac hi_frac =
      let max_offset = num_timesteps - window_steps - 1 in
      if leb max_offset 0 then err value_error else elim (part max_offset lo_frac) [
        | none ↦ err value_error
        | some lo ↦ elim (part max_offset hi_frac) [
          | none ↦ err value_error
          | some hi ↦ let (a, b) = range_of max_offset lo hi in ok (draws randint a b 0 n_windows)
        ]
      ]

  -- When offsets are drawn, there are as many as windows asked for, and the episode from each lies
  -- within the data, whatever the fractions are, if `randint` keeps to its range.
  pub generate_offsets-Fits :
      (randint : RandInt) (num_timesteps n_windows window_steps : ℕ) (lo_frac hi_frac : F)
      {offs : List ℕ}
      → IsInRange randint
      → generate_offsets randint num_timesteps n_windows window_steps lo_frac hi_frac ≡ ok offs
      → All (Fits num_timesteps window_steps) offs × (length offs ≡ n_windows)
  unfolding generate_offsets
  generate_offsets-Fits randint t n w lo_frac hi_frac fair e =
      let m = t - w - 1 in
      elim (Bool-cases (leb m 0)) [
        | inl b ↦ ground arith
        | inr b ↦ elim (Option-cases (part m lo_frac)) [
          | inl f ↦ ground arith
          | inr (lo, f) ↦ elim (Option-cases (part m hi_frac)) [
            | inl g ↦ ground arith
            | inr (hi, g) ↦ ground (
              arith,
              draws-Fits randint t w ((range_of m lo hi).0) ((range_of m lo hi).1) 0 n fair,
            )
          ]
        ]
      ]
