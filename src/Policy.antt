-- ===== src/Policy.antt =====
-- models/rl/policy.py: the linear policy, the advantages of a rollout, and the clamp to the action
-- space of the simulator. A list index out of range is an `IndexError`, here `none`.
pub mod Choice
use keel_trader.Base.{
  ℕ, zero, suc, ◌+◌, Bool, true, false, ◌||◌, Option, none, some, List, [], ◌∷◌, map, if◌then◌else◌,
}
use keel_trader.Base.Int.{ℤ, pos, negsuc, pos_part}
use keel_trader.Base.{leb, ltb, get_elem?, length}
use keel_trader.Double.{Double, lt, sum}

pub record LinearPolicy (F : Type 0) : Type 0 where
  pub weights : List (List F)
  pub bias : List F

-- The values of a rollout at one time: reward, value and `done`, from three lists of one length.
pub record Moment (F : Type 0) : Type 0 where
  pub reward : F
  pub value : F
  pub done : F

module _ {F : Type 0} ⦃d : Double F⦄ where
  -- The products of a row with the observation, which is at least as long.
  unfoldable pub products : List F → List F → Option (List F)
  products [] obs = some []
  products (w ∷ row) [] = none
  products (w ∷ row) (x ∷ obs) = elim (products row obs) [
    | none ↦ none
    | some ps ↦ some (d.mul w x ∷ ps)
  ]

  -- `LinearPolicy.logits`, from some row on
  unfoldable pub logits : List (List F) → List F → List F → Option (List F)
  logits [] bias obs = some []
  logits (row ∷ rows) [] obs = none
  logits (row ∷ rows) (b ∷ bias) obs = elim (products row obs) [
    | none ↦ none
    | some ps ↦ elim (logits rows bias obs) [
      | none ↦ none
      | some rest ↦ some (d.add (sum ps) b ∷ rest)
    ]
  ]

  -- The loop of `LinearPolicy.act`, from index `i` on.
  unfoldable pub best : (i best_i : ℕ) → (best_v : F) → List F → ℕ
  best i best_i best_v [] = best_i
  best i best_i best_v (v ∷ vs) =
      let better = lt best_v v in
      best (i + 1) (if better then i else best_i) (if better then v else best_v) vs

  -- The choice among some logits; of none, `logits[0]` raises.
  unfoldable pub choose : List F → Option ℕ
  choose [] = none
  choose (v ∷ vs) = some (best 1 0 v vs)

  unfoldable pub act : LinearPolicy F → List F → Option ℕ
  act policy obs = elim (logits (policy.weights) (policy.bias) obs) [
    | none ↦ none
    | some vs ↦ choose vs
  ]

  -- `compute_gae`, from the last moment back to the first: the advantages from here on, after the
  -- value of the moment that follows (0 at the tail).
  unfoldable pub compute_gae : (gamma lam : F) → List (Moment F) → List F
  compute_gae gamma lam [] = []
  compute_gae gamma lam (m ∷ ms) =
      let later = compute_gae gamma lam ms in
      let next_val = elim ms as (λ _. F) [ [] ↦ d.nought | n ∷ _ ↦ n.value ] in
      let last = elim later as (λ _. F) [ [] ↦ d.nought | a ∷ _ ↦ a ] in
      let nonterminal = d.sub (d.one) (m.done) in
      let delta = d.sub (d.add (m.reward) (d.mul (d.mul gamma next_val) nonterminal)) (m.value) in
      d.add delta (d.mul (d.mul (d.mul gamma lam) nonterminal) last) ∷ later

  abbrev pub returns : List F → List (Moment F) → List F
  returns [] ms = []
  returns (a ∷ adv) [] = []
  returns (a ∷ adv) (m ∷ ms) = d.add a (m.value) ∷ returns adv ms

-- The test of `_gate_policy`, on an action that may be any integer.
abbrev pub is_invalid : ℤ → ℕ → Bool
is_invalid (negsuc _) num_actions = true
is_invalid (pos n) num_actions = leb num_actions n

-- `as_gate_policy`: an invalid action is the flat one.
unfoldable pub gate_action : (num_actions : ℕ) → ℤ → ℕ
gate_action num_actions action = if is_invalid action num_actions then 0 else pos_part action
