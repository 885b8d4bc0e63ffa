-- ===== src/Gate/Median.antt =====
-- Python's `sorted` on floats and `statistics.median`, and where the middle of a list lies. The
-- sort is a stable insertion sort by `<`, which gives what Python's sort gives on lists with no NaN.
use keel_trader.Base.{
  ℕ, zero, suc, ◌+◌, ◌-◌, ◌/◌, ◌%◌, ◌<◌, ◌≡◌, refl, Bool, true, false, List, [], ◌∷◌, arith,
  if◌then◌else◌, ◌==◌, length, get_or, count, All, Bool-cases, inl, inr,
}
use keel_trader.Double.{Double, le, lt, is_finite}
use keel_trader.Double.Order.{IsOrdered, IsMean, ◌≼◌}

module _ {F : Type 0} ⦃d : Double F⦄ where
  abbrev pub insert_sorted : F → List F → List F
  insert_sorted x [] = x ∷ []
  insert_sorted x (y ∷ ys) = if lt y x then y ∷ insert_sorted x ys else x ∷ y ∷ ys

  abbrev pub sorted : List F → List F
  sorted [] = []
  sorted (x ∷ xs) = insert_sorted x (sorted xs)

  -- `statistics.median` of a list that is not empty.
  unfoldable pub median : List F → F
  median xs =
      let s = sorted xs in
      let n = length xs in
      if n % 2 == 1
      then get_or s (n / 2) (d.nought)
      else d.div (d.add (get_or s (n / 2 - 1) (d.nought)) (get_or s (n / 2) (d.nought))) (d.lit 2 1)

  length-insert_sorted : (x : F) (ys : List F) → length (insert_sorted x ys) ≡ suc (length ys)
  length-insert_sorted x [] = refl
  length-insert_sorted x (y ∷ ys) = ground (arith, length-insert_sorted x ys)

  length-sorted : (xs : List F) → length (sorted xs) ≡ length xs
  length-sorted [] = refl
  length-sorted (x ∷ xs) = ground (arith, length-insert_sorted x (sorted xs), length-sorted xs)

  count-insert_sorted :
      (p : F → Bool) (x : F) (ys : List F) → count p (insert_sorted x ys) ≡ count p (x ∷ ys)
  count-insert_sorted p x [] = refl
  count-insert_sorted p x (y ∷ ys) = ground (arith, count-insert_sorted p x ys)

  count-sorted : (p : F → Bool) (xs : List F) → count p (sorted xs) ≡ count p xs
  count-sorted p [] = refl
  count-sorted p (x ∷ xs) = ground (arith, count-insert_sorted p x (sorted xs), count-sorted p xs)

  All-insert_sorted :
      (P : F → Type 0) (x : F) (ys : List F) → P x → All P ys → All P (insert_sorted x ys)
  All-insert_sorted P x [] px all = (px, tt)
  All-insert_sorted P x (y ∷ ys) px (py, all) = ground (arith, All-insert_sorted P x ys px all)

  All-sorted : (P : F → Type 0) (xs : List F) → All P xs → All P (sorted xs)
  All-sorted P [] all = tt
  All-sorted P (x ∷ xs) (px, all) = All-insert_sorted P x (sorted xs) px (All-sorted P xs all)

  -- In order: each is at most every later one.
  abbrev IsSorted : List F → Type 0
  IsSorted [] = Unit
  IsSorted (x ∷ xs) = All (λ y. x ≼ y) xs × IsSorted xs

  abbrev pub IsNumber : F → Type 0
  IsNumber x = x ≼ x

  -- The two values that the median of an even number of values is the mean of.
  abbrev pub middle_sum : List F → F
  middle_sum xs =
      let s = sorted xs in
      d.add (get_or s (length xs / 2 - 1) (d.nought)) (get_or s (length xs / 2) (d.nought))

  module _ (laws : IsOrdered F) where
    All-≼_trans : (x y : F) (ys : List F) → x ≼ y → All (λ z. y ≼ z) ys → All (λ z. x ≼ z) ys
    All-≼_trans x y [] h all = tt
    All-≼_trans x y (z ∷ ys) h (yz, all) = (laws.le_trans x y z h yz, All-≼_trans x y ys h all)

    insert_sorted-IsSorted :
        (x : F) (ys : List F)
        → IsNumber x
        → All IsNumber ys
        → IsSorted ys
        → IsSorted (insert_sorted x ys)
    insert_sorted-IsSorted x [] nx ny s = (tt, tt)
    insert_sorted-IsSorted x (y ∷ ys) nx (ny, nys) (below, s) = elim (Bool-cases (lt y x)) [
      | inl before ↦ rw before (
        All-insert_sorted (λ z. y ≼ z) x ys (ground arith) below,
        insert_sorted-IsSorted x ys nx nys s,
      )
      | inr after ↦
          let first : x ≼ y = ground (arith, laws.le_total x y nx ny) in
          rw after ((first, All-≼_trans x y ys first below), (below, s))
    ]

    sorted-IsSorted : (xs : List F) → All IsNumber xs → IsSorted (sorted xs)
    sorted-IsSorted [] n = tt
    sorted-IsSorted (x ∷ xs) (nx, n) =
        insert_sorted-IsSorted x (sorted xs) nx (All-sorted IsNumber xs n) (sorted-IsSorted xs n)

    -- Above a value at the target everything in order is at the target.
    count-above :
        (target x : F) (xs : List F)
        → target ≼ x
        → All (λ y. x ≼ y) xs
        → count (le target) xs ≡ length xs
    count-above target x [] h all = refl
    count-above target x (y ∷ ys) h (xy, all) =
        ground (arith, laws.le_trans target x y h xy, count-above target x ys h all)

    -- With c values at the target, all but the last c places of the order are below it.
    get_or-below :
        (target : F) (xs : List F) (i : ℕ)
        → IsSorted xs
        → i + count (le target) xs < length xs
        → le target (get_or xs i (d.nought)) ≡ false
    get_or-below target [] i s h = elim h [ ]
    get_or-below target (x ∷ xs) zero (below, s) h = ground (arith, count-above target x xs)
    get_or-below target (x ∷ xs) (suc i) (below, s) h =
        ground (arith, count-above target x xs, get_or-below target xs i s)

    get_or-IsNumber :
        (xs : List F) (i : ℕ) → All IsNumber xs → i < length xs → IsNumber (get_or xs i (d.nought))
    get_or-IsNumber [] i n h = elim h [ ]
    get_or-IsNumber (x ∷ xs) zero n h = n.0
    get_or-IsNumber (x ∷ xs) (suc i) n h = get_or-IsNumber xs i (n.1) (omega arith)

    module _ (means : IsMean F) where
      middle_lt :
          (target : F) (xs : List F) (i : ℕ)
          → IsNumber target
          → All IsNumber xs
          → i + count (le target) xs < length xs
          → lt (get_or (sorted xs) i (d.nought)) target ≡ true
      middle_lt target xs i nt n h =
          let s = sorted xs in
          let c = count-sorted (le target) xs in
          let l = length-sorted xs in
          let below : le target (get_or s i (d.nought)) ≡ false =
            get_or-below target s i (sorted-IsSorted xs n) (omega arith) in
          let num : IsNumber (get_or s i (d.nought)) =
            get_or-IsNumber s i (All-sorted IsNumber xs n) (omega arith) in
          ground (arith, laws.le_total target (get_or s i (d.nought)) nt num)

      -- Where fewer than half of the values, rounded up, are at the target, the median is below.
      pub median-lt :
          (target : F) (xs : List F)
          → IsNumber target
          → All IsNumber xs
          → is_finite (middle_sum xs) ≡ true
          → count (le target) xs < length xs - length xs / 2
          → lt (median xs) target ≡ true
      unfolding median
      median-lt target xs nt n finite few =
          let n2 = length xs / 2 in
          elim (Bool-cases (length xs % 2 == 1)) [
            | inl odd ↦ rw odd (middle_lt target xs n2 nt n (ground arith))
            | inr even ↦ rw even (
                means.mean_lt _ _ target finite (middle_lt target xs (n2 - 1) nt n (ground arith))
                  (middle_lt target xs n2 nt n (ground arith)))
          ]
