-- ===== src/Policy/Choice.antt =====
-- models/rl/policy.py: the action that the linear policy chooses.
use mathlib.Core.Path.{subst}
use keel_trader.Base.{
  ℕ, suc, ◌+◌, ◌<◌, ◌≡◌, ◌⊎◌, ◌∙◌, refl, sym, some, List, [], ◌∷◌, arith, Bool-cases, inl, inr,
  length, get_or, All,
}
use keel_trader.Double.{Double, lt}
use keel_trader.Double.Order.{IsOrdered, ◌≼◌}
use keel_trader.Policy.{best, choose}

module _ {F : Type 0} ⦃d : Double F⦄ (laws : IsOrdered F) where
  -- The value is a number, and no value of the list is above it.
  abbrev pub IsTop : F → List F → Type 0
  IsTop v vs = All (λ u. u ≼ v) vs

  abbrev pub AllNumbers : List F → Type 0
  AllNumbers vs = All (λ u. u ≼ u) vs

  -- Where the loop ends: at the value that it began with, or at one of the list.
  best-IsTop :
      (i best_i : ℕ) (best_v : F) (vs : List F)
      → best_v ≼ best_v
      → AllNumbers vs
      → (v : F) × (best_v ≼ v)
        × IsTop v vs
        × (((best i best_i best_v vs ≡ best_i) × (v ≡ best_v))
            ⊎ ((j : ℕ) × (best i best_i best_v vs ≡ i + j)
                × (j < length vs)
                × (get_or vs j (d.nought) ≡ v)))
  unfolding best
  best-IsTop i best_i best_v [] n ns = (best_v, n, tt, inl (refl, refl))
  best-IsTop i best_i best_v (u ∷ us) n (nu, ns) = elim (Bool-cases (lt best_v u)) [
    | inl b ↦
        let (v, above, top, at) = best-IsTop (i + 1) i u us nu ns in
        let up = laws.le_trans best_v u v (ground arith) above in
        rw (b, best)
          (
            v,
            up,
            (above, top),
            elim at [
              | inl (e, w) ↦ inr (0, ground arith, omega arith, sym w)
              | inr (j, e, h, g) ↦ inr (suc j, omega (arith, e), omega (arith, h), g)
            ],
          )
    | inr b ↦
        let (v, above, top, at) = best-IsTop (i + 1) best_i best_v us n ns in
        let below = laws.le_trans u best_v v (ground (arith, laws.le_total best_v u n nu)) above in
        rw (b, best)
          (
            v,
            above,
            (below, top),
            elim at [
              | inl (e, w) ↦ inl (e, w)
              | inr (j, e, h, g) ↦ inr (suc j, omega (arith, e), omega (arith, h), g)
            ],
          )
  ]

  -- The choice among logits that are numbers is in range, and no logit is above the one chosen.
  pub choose-IsTop :
      (vs : List F) {a : ℕ}
      → AllNumbers vs
      → choose vs ≡ some a
      → (a < length vs) × IsTop (get_or vs a (d.nought)) vs
  unfolding choose
  choose-IsTop [] n e = ground arith
  choose-IsTop (u ∷ us) {a = a} (nu, ns) e =
      let (v, above, top, at) = best-IsTop 1 0 u us nu ns in
      let same_a : best 1 0 u us ≡ a = ground arith in
      elim at [
        | inl (f, w) ↦
            let zero_a : 0 ≡ a = sym f ∙ same_a in
            subst (λ z. (z < length (u ∷ us)) × IsTop (get_or (u ∷ us) z (d.nought)) (u ∷ us))
              zero_a (omega arith, (nu, subst (λ q. IsTop q us) w top))
        | inr (j, f, h, g) ↦
            let suc_a : suc j ≡ a = omega (arith, f, same_a) in
            subst (λ z. (z < length (u ∷ us)) × IsTop (get_or (u ∷ us) z (d.nought)) (u ∷ us)) suc_a
              (omega (arith, h), subst (λ q. IsTop q (u ∷ us)) (sym g) (above, top))
      ]
