-- ===== src/Double/Rank.antt =====
-- Sorting by a key, the greatest first: Python's `sort(key=…, reverse=True)`, which is stable.
use keel_trader.Base.{
  suc, length, All, ◌≡◌, refl, Bool, false, List, [], ◌∷◌, arith, count, Bool-cases, inl, inr,
  if◌then◌else◌,
}
use keel_trader.Double.Defs.{Double, lt}

module _ {F A : Type 0} ⦃d : Double F⦄ (key : A → F) where
  abbrev pub rank_in : A → List A → List A
  rank_in r [] = r ∷ []
  rank_in r (s ∷ ss) =
      let rest = rank_in r ss in if lt (key r) (key s) then s ∷ rest else r ∷ s ∷ ss

  abbrev pub rank_by : List A → List A
  rank_by [] = []
  rank_by (r ∷ rs) = rank_in r (rank_by rs)

  -- No element is followed by one with a greater key.
  abbrev pub IsRankedBy : List A → Type 0
  IsRankedBy [] = Unit
  IsRankedBy (r ∷ []) = Unit
  IsRankedBy (r ∷ s ∷ ss) = (lt (key r) (key s) ≡ false) × IsRankedBy (s ∷ ss)

  rank_in-IsRankedBy : (r : A) (ss : List A) → IsRankedBy ss → IsRankedBy (rank_in r ss)
  rank_in-IsRankedBy r [] h = tt
  rank_in-IsRankedBy r (s ∷ []) h = elim (Bool-cases (lt (key r) (key s))) [
    | inl b ↦ rw b (ground arith, tt)
    | inr b ↦ rw b (b, tt)
  ]
  rank_in-IsRankedBy r (s ∷ t ∷ ts) (h, hs) = elim (Bool-cases (lt (key r) (key s))) [
    | inr b ↦ rw b (b, (h, hs))
    | inl b ↦
        let ih = rank_in-IsRankedBy r (t ∷ ts) hs in
        elim (Bool-cases (lt (key r) (key t))) [
          | inl c ↦ rw (b, c) (h, rw c at ih)
          | inr c ↦ rw (b, c) (ground arith, rw c at ih)
        ]
  ]

  pub rank_by-IsRankedBy : (rs : List A) → IsRankedBy (rank_by rs)
  rank_by-IsRankedBy [] = tt
  rank_by-IsRankedBy (r ∷ rs) = rank_in-IsRankedBy r (rank_by rs) (rank_by-IsRankedBy rs)

  count-rank_in : (p : A → Bool) (r : A) (ss : List A) → count p (rank_in r ss) ≡ count p (r ∷ ss)
  count-rank_in p r [] = refl
  count-rank_in p r (s ∷ ss) = ground (arith, count-rank_in p r ss)

  pub count-rank_by : (p : A → Bool) (rs : List A) → count p (rank_by rs) ≡ count p rs
  count-rank_by p [] = refl
  count-rank_by p (r ∷ rs) = ground (arith, count-rank_in p r (rank_by rs), count-rank_by p rs)

  All-rank_in {κ} : (P : A → Type κ) (r : A) (ss : List A) → P r → All P ss → All P (rank_in r ss)
  All-rank_in P r [] h hs = (h, tt)
  All-rank_in P r (s ∷ ss) h (g, gs) = elim (Bool-cases (lt (key r) (key s))) [
    | inl b ↦ rw b (g, All-rank_in P r ss h gs)
    | inr b ↦ rw b (h, (g, gs))
  ]

  pub All-rank_by {κ} : (P : A → Type κ) (rs : List A) → All P rs → All P (rank_by rs)
  All-rank_by P [] h = tt
  All-rank_by P (r ∷ rs) (h, hs) = All-rank_in P r (rank_by rs) h (All-rank_by P rs hs)

  length-rank_in : (r : A) (ss : List A) → length (rank_in r ss) ≡ suc (length ss)
  length-rank_in r [] = refl
  length-rank_in r (s ∷ ss) = ground (arith, length-rank_in r ss)

  pub length-rank_by : (rs : List A) → length (rank_by rs) ≡ length rs
  length-rank_by [] = refl
  length-rank_by (r ∷ rs) = ground (arith, length-rank_in r (rank_by rs), length-rank_by rs)
