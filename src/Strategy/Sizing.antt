-- ===== src/Strategy/Sizing.antt =====
-- models/xgb/strategy.py: the sizing loop, its turns and its cap.
use mathlib.Core.Path.{subst}
use keel_trader.Base.{
  ℕ, zero, suc, ◌+◌, ◌≡◌, ◌⊎◌, ◌<◌, refl, true, false, ◌||◌, some, [], ◌∷◌, or_default, length,
  arith, is_some, inl, inr, Bool-cases, List-cases, ap,
}
use keel_trader.Base.Dict.{Dict, lookup, insert, lookup-insert, update}
use keel_trader.Base.Text.{Text, text_eq}
use keel_trader.Double.{Double, le, lt, sum}
use keel_trader.Strategy.{allocate, newly_capped, uncapped, overflows, proportional, alloc, values}

module _ {F : Type 0} ⦃d : Double F⦄ where
  length-uncapped :
      (limit b t : F) (remaining : Dict Text F)
      → length (newly_capped limit b t remaining) + length (uncapped limit b t remaining)
        ≡ length remaining
  length-uncapped limit b t [] = refl
  length-uncapped limit b t (e ∷ r) = ground (arith, length-uncapped limit b t r)

  -- The loop ends within as many turns as there are names left, and one: in each turn but the last
  -- a name reaches the cap.
  pub allocate_ends :
      (n : ℕ) (limit budget : F) (capped remaining : Dict Text F)
      → length remaining < n
      → is_some (allocate n limit budget capped remaining) ≡ true
  unfolding allocate
  allocate_ends zero limit budget capped remaining h = ground arith
  allocate_ends (suc n) limit budget capped [] h = refl
  allocate_ends (suc n) limit budget capped (e ∷ more) h =
      let remaining : Dict Text F = e ∷ more in
      let t = sum (values remaining) in
      let b = d.sub budget (sum (values capped)) in
      ground (
        arith,
        length-uncapped limit b t remaining,
        allocate_ends n limit budget (update capped (newly_capped limit b t remaining))
            (uncapped limit b t remaining),
      )

  -- A weight that the loop may give: the cap, or a share that does not overflow it.
  abbrev pub IsCapped : F → F → Type 0
  IsCapped limit w = (w ≡ limit) ⊎ (lt (d.add limit (d.lit 1 1_000_000_000_000)) w ≡ false)

  abbrev pub AllCapped : F → Dict Text F → Type 0
  AllCapped limit b = (k : Text) → (v : F) → lookup k b ≡ some v → IsCapped limit v

  insert-AllCapped :
      (limit : F) (k : Text) (v : F) (b : Dict Text F)
      → IsCapped limit v
      → AllCapped limit b
      → AllCapped limit (insert k v b)
  insert-AllCapped limit k v b h all j w e = ground (arith, lookup-insert k j v b, all j w)

  update-newly :
      (limit b t : F) (capped remaining : Dict Text F)
      → AllCapped limit capped
      → AllCapped limit (update capped (newly_capped limit b t remaining))
  update-newly limit b t capped [] all = all
  update-newly limit b t capped (e ∷ r) all = elim (Bool-cases (overflows limit b t e)) [
    | inl o ↦ rw o (
        update-newly limit b t (insert (e.0) limit capped) r
          (insert-AllCapped limit (e.0) limit capped (inl refl) all))
    | inr o ↦ rw o (update-newly limit b t capped r all)
  ]

  update-proportional :
      (limit b t : F) (capped remaining : Dict Text F)
      → newly_capped limit b t remaining ≡ []
      → AllCapped limit capped
      → AllCapped limit (update capped (proportional b t remaining))
  update-proportional limit b t capped [] none_over all = all
  update-proportional limit b t capped (e ∷ r) none_over all =
      elim (Bool-cases (overflows limit b t e)) [
        | inl o ↦ ground (arith)
        | inr o ↦
            update-proportional limit b t (insert (e.0) (alloc b t (e.1)) capped) r (ground arith)
              (insert-AllCapped limit (e.0) (alloc b t (e.1)) capped (inr o) all)
      ]

  -- What the loop returns keeps every name at the cap, if what it began with did.
  pub allocate-AllCapped :
      (n : ℕ) (limit budget : F) (capped remaining : Dict Text F) {weights : Dict Text F}
      → AllCapped limit capped
      → allocate n limit budget capped remaining ≡ some weights
      → AllCapped limit weights
  unfolding allocate
  allocate-AllCapped zero limit budget capped remaining all e = ground arith
  allocate-AllCapped (suc n) limit budget capped [] all e =
      let same_weights = ap (λ o. or_default o []) e in subst (AllCapped limit) same_weights all
  allocate-AllCapped (suc n) limit budget capped (r ∷ more) {weights} all e =
      let remaining : Dict Text F = r ∷ more in
      let t = sum (values remaining) in
      let b = d.sub budget (sum (values capped)) in
      let ih =
        allocate-AllCapped n limit budget (update capped (newly_capped limit b t remaining))
          (uncapped limit b t remaining) (update-newly limit b t capped remaining all) in
      elim (Bool-cases (le b (d.nought) || le t (d.nought))) [
        | inl stop ↦ subst (AllCapped limit) (ap (λ o. or_default o []) (rw stop at e)) all
        | inr go ↦ elim (List-cases (newly_capped limit b t remaining)) [
          | inl f ↦
              subst (AllCapped limit) (ap (λ o. or_default o []) (rw f at (rw go at e)))
                (update-proportional limit b t capped remaining f all)
          | inr (x, xs, f) ↦ ih (ground arith)
        ]
      ]
