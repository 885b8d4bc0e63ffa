-- ===== src/Policies/LongShort.antt =====
-- research/feature_search.py: what the policy of a signal does.
use keel_trader.Base.{
  range, ℕ, ap, true, false, Option, none, some, List, [], ◌∷◌, arith, ◌≡◌, ◌⊎◌, inl, inr, All,
  Bool-cases,
}
use keel_trader.Double.{Double, lt, fabs}
use keel_trader.Double.Order.{IsOrdered}
use keel_trader.Outcome.{Result, ok, Result-cases}
use keel_trader.Policies.{ScoreFn, symbol_features, strongest, direction, make_long_short_policy}
use keel_trader.Policies.Order.{lt_trans, lt_asymm, lt_irrefl}

module _ {F : Type 0} ⦃d : Double F⦄ where
  -- The symbol has a score, and its size does not exceed that of `v`.
  abbrev pub Within : (ℕ → Result F) → F → ℕ → Type 0
  Within score v s = (x : F) × (score s ≡ ok x) × (lt (fabs v) (fabs x) ≡ false)

  -- What the loop leaves: the symbol of the strongest signal with its score, or none and 0 where no
  -- score is larger in size than 0.
  abbrev pub IsStrongest : (ℕ → Result F) → List ℕ → Option ℕ × F → Type 0
  IsStrongest score symbols (none, v) = (v ≡ d.nought) × All (Within score v) symbols
  IsStrongest score symbols (some s, v) =
      (score s ≡ ok v) × (lt (fabs (d.nought)) (fabs v) ≡ true) × All (Within score v) symbols

  -- From a best so far: it stays, or a stronger one takes its place.
  Improves : (ℕ → Result F) → List ℕ → (before after : Option ℕ × F) → Type 0
  Improves score symbols before after =
      ((after ≡ before)
        ⊎ ((s : ℕ) × (after.0 ≡ some s)
            × (score s ≡ ok (after.1))
            × (lt (fabs (before.1)) (fabs (after.1)) ≡ true)))
      × All (Within score (after.1)) symbols

module _ {F : Type 0} ⦃d : Double F⦄ (laws : IsOrdered F) (score : ℕ → Result F) where
  Improves-stronger :
      (best : Option ℕ) (v x : F) (s : ℕ) (ss : List ℕ) (b : Option ℕ) (w : F)
      → score s ≡ ok x
      → lt (fabs v) (fabs x) ≡ true
      → Improves score ss (some s, x) (b, w)
      → Improves score (s ∷ ss) (best, v) (b, w)
  unfolding Improves
  Improves-stronger best v x s ss b w f l (inl e, within) =
      let e1 : w ≡ x = ap (λ q. q.1) e in
      (inr (s, ap (λ q. q.0) e, rw e1 f, rw e1 l), ((x, f, rw e1 (lt_irrefl (fabs x))), within))
  Improves-stronger best v x s ss b w f l (inr (t, e, g, m), within) = (
    inr (t, e, g, lt_trans laws (fabs v) (fabs x) (fabs w) l m),
    ((x, f, lt_asymm (fabs x) (fabs w) m), within),
  )

  Improves-kept :
      (best : Option ℕ) (v x : F) (s : ℕ) (ss : List ℕ) (b : Option ℕ) (w : F)
      → score s ≡ ok x
      → lt (fabs v) (fabs x) ≡ false
      → Improves score ss (best, v) (b, w)
      → Improves score (s ∷ ss) (best, v) (b, w)
  unfolding Improves
  Improves-kept best v x s ss b w f l (inl e, within) =
      (inl e, ((x, f, rw (ap (λ q. q.1) e) l), within))
  Improves-kept best v x s ss b w f l (inr (t, e, g, m), within) = (
    inr (t, e, g, m),
    (
      (
        x,
        f,
        elim (Bool-cases (lt (fabs w) (fabs x))) [
          | inl k ↦ ground (arith, lt_trans laws (fabs v) (fabs w) (fabs x) m k)
          | inr k ↦ k
        ],
      ),
      within,
    ),
  )

  strongest-Improves :
      (best : Option ℕ) (v : F) (symbols : List ℕ) (b : Option ℕ) (w : F)
      → strongest score best v symbols ≡ ok (b, w)
      → Improves score symbols (best, v) (b, w)
  unfolding strongest Improves
  strongest-Improves best v [] b w e = (inl (ground arith), tt)
  strongest-Improves best v (s ∷ ss) b w e = elim (Result-cases (score s)) [
    | inl (_, f) ↦ ground arith
    | inr (x, f) ↦ elim (Bool-cases (lt (fabs v) (fabs x))) [
      | inl l ↦
          Improves-stronger best v x s ss b w f l
            (strongest-Improves (some s) x ss b w (ground arith))
      | inr l ↦
          Improves-kept best v x s ss b w f l (strongest-Improves best v ss b w (ground arith))
    ]
  ]

  Improves-IsStrongest :
      (symbols : List ℕ) (b : Option ℕ) (w : F)
      → Improves score symbols (none, d.nought) (b, w)
      → IsStrongest score symbols (b, w)
  unfolding Improves
  Improves-IsStrongest symbols none w (inl e, within) = (ap (λ q. q.1) e, within)
  Improves-IsStrongest symbols none w (inr (t, e, g, m), within) = ground arith
  Improves-IsStrongest symbols (some s) w (inl e, within) =
      let e0 : some s ≡ none = ap (λ q. q.0) e in ground arith
  Improves-IsStrongest symbols (some s) w (inr (t, e, g, m), within) =
      let e0 : s ≡ t = ground arith in (rw e0 g, m, within)

module _ {F : Type 0} ⦃d : Double F⦄ (laws : IsOrdered F) where
  -- When the policy gives an action, each symbol has a score, and the action is the direction of a
  -- strongest one: flat if no score is larger in size than 0; else long in a symbol whose score is
  -- the largest in size if that is positive, short if it is not, and flat if the environment has no
  -- such action.
  pub make_long_short_policy-IsStrongest :
      (score : ScoreFn F) (n_symbols features_per_sym num_actions : ℕ) (obs : List F) {a : ℕ}
      → make_long_short_policy score n_symbols features_per_sym obs num_actions ≡ ok a
      → (best : Option ℕ × F) × IsStrongest
          (λ s. score (symbol_features obs s features_per_sym))
          (range n_symbols)
          best
        × (a ≡ direction n_symbols num_actions best)
  unfolding make_long_short_policy
  make_long_short_policy-IsStrongest score n per num_actions obs e =
      let sc : ℕ → Result F = λ s. score (symbol_features obs s per) in
      elim (Result-cases (strongest sc none (d.nought) (range n))) [
        | inl (_, f) ↦ ground arith
        | inr ((b, w), f) ↦ (
          (b, w),
          Improves-IsStrongest laws sc (range n) b w
              (strongest-Improves laws sc none (d.nought) (range n) b w f),
          ground arith,
        )
      ]
