-- ===== src/Build/Times.antt =====
-- sim/export_data.py: lists of times.
use mathlib.Core.Path.{subst}
use keel_trader.Base.{
  ℕ, ◌≤◌, ◌≡◌, Bool, true, Option, none, some, List, [], ◌∷◌, filter, All, All-map, arith, ltb, leb,
  ◌==◌, Bool-cases, inl, inr,
}
use keel_trader.Base.Text.{text_eq}
use keel_trader.Build.Export.{is_time, time_into, sort_times, date_filter}

pub filter-holds : (p : ℕ → Bool) (xs : List ℕ) → All (λ x. p x ≡ true) (filter p xs)
filter-holds p [] = tt
filter-holds p (x ∷ xs) = ground (arith, filter-holds p xs)

pub All-is_time : (P : ℕ → Type 0) (t : ℕ) (xs : List ℕ) → All P xs → is_time t xs ≡ true → P t
All-is_time P t [] h e = absurd (ground arith)
All-is_time P t (x ∷ xs) (h, hs) e = elim (Bool-cases (x == t)) [
  | inl here ↦ let q : x ≡ t = ground arith in subst P q h
  | inr there ↦ All-is_time P t xs hs (ground arith)
]

pub filter-both :
    (P : ℕ → Type 0) (p : ℕ → Bool) (xs : List ℕ)
    → All P xs
    → All (λ x. P x × (p x ≡ true)) (filter p xs)
filter-both P p [] h = tt
filter-both P p (x ∷ xs) (h, hs) = elim (Bool-cases (p x)) [
  | inl e ↦ rw e ((h, e), filter-both P p xs hs)
  | inr e ↦ rw e (filter-both P p xs hs)
]

pub is_time_self : (xs : List ℕ) → All (λ t. is_time t xs ≡ true) xs
is_time_self [] = tt
is_time_self (x ∷ xs) = (
  ground arith,
  All-map (λ t. is_time t xs ≡ true) (λ t. is_time t (x ∷ xs) ≡ true) xs (λ t h. ground (arith, h))
      (is_time_self xs),
)

pub filter-All : (P : ℕ → Type 0) (p : ℕ → Bool) (xs : List ℕ) → All P xs → All P (filter p xs)
filter-All P p [] h = tt
filter-All P p (x ∷ xs) (h, hs) = elim (Bool-cases (p x)) [
  | inl e ↦ rw e (h, filter-All P p xs hs)
  | inr e ↦ rw e (filter-All P p xs hs)
]

pub time_into-All : (P : ℕ → Type 0) (t : ℕ) (xs : List ℕ) → P t → All P xs → All P (time_into t xs)
time_into-All P t [] h hs = (h, tt)
time_into-All P t (x ∷ xs) h (k, ks) = elim (Bool-cases (ltb x t)) [
  | inl e ↦ rw e (k, time_into-All P t xs h ks)
  | inr e ↦ rw e (h, (k, ks))
]

pub sort_times-All : (P : ℕ → Type 0) (xs : List ℕ) → All P xs → All P (sort_times xs)
sort_times-All P [] h = tt
sort_times-All P (x ∷ xs) (h, hs) = time_into-All P x (sort_times xs) h (sort_times-All P xs hs)

-- The bounds of the window.
abbrev pub IsWithin : (start_date end_date : Option ℕ) → ℕ → Type 0
IsWithin start_date end_date t =
    elim start_date [ none ↦ Unit | some s ↦ s ≤ t ]
    × elim end_date [ none ↦ Unit | some e ↦ t ≤ e ]

pub date_filter-All :
    (P : ℕ → Type 0) (start_date end_date : Option ℕ) (xs : List ℕ)
    → All P xs
    → All P (date_filter start_date end_date xs)
date_filter-All P none none xs h = h
date_filter-All P none (some e) xs h = filter-All P _ xs h
date_filter-All P (some s) none xs h = filter-All P _ xs h
date_filter-All P (some s) (some e) xs h = filter-All P _ _ (filter-All P _ xs h)

pub date_filter-IsWithin :
    (start_date end_date : Option ℕ) (xs : List ℕ)
    → All (IsWithin start_date end_date) (date_filter start_date end_date xs)
date_filter-IsWithin none none xs = All-map _ _ xs (λ t h. (tt, tt)) (is_time_self xs)
date_filter-IsWithin none (some e) xs =
    All-map _ _ _ (λ t h. (tt, ground (arith, h))) (filter-holds (λ t. leb t e) xs)
date_filter-IsWithin (some s) none xs =
    All-map _ _ _ (λ t h. (ground (arith, h), tt)) (filter-holds (λ t. leb s t) xs)
date_filter-IsWithin (some s) (some e) xs =
    All-map _ _ _ (λ t (h, k). (ground (arith, h), ground (arith, k)))
      (filter-both _ (λ t. leb t e) _ (filter-holds (λ t. leb s t) xs))
