-- ===== src/Features/Contract.antt =====
-- forecast/features.py: which models pass the contract.
use keel_trader.Base.{
  ◌≡◌, ◌↔◌, ◌⊎◌, Bool, true, false, not, List, [], ◌∷◌, filter, all, length, take, arith, inl, inr,
}
use keel_trader.Base.Text.{Text, text_eq, text_beq_iff}
use keel_trader.Outcome.{ok, Result-cases}
use keel_trader.Features.{
  FeatureSpec, names, Model, model_required_features, is_member, same_texts, check_required,
  validate_feature_contract,
}

same_texts_iff : (fs gs : List Text) → (same_texts fs gs ≡ true) ↔ (fs ≡ gs)
same_texts_iff [] [] = ground arith
same_texts_iff [] (g ∷ gs) = ground arith
same_texts_iff (f ∷ fs) [] = ground arith
same_texts_iff (f ∷ fs) (g ∷ gs) = ground (arith, text_beq_iff f g, same_texts_iff fs gs)

missing_iff :
    (p : Text → Bool) (fs : List Text) → (filter (λ f. not (p f)) fs ≡ []) ↔ (all p fs ≡ true)
missing_iff p [] = ground arith
missing_iff p (f ∷ fs) = ground (arith, missing_iff p fs)

-- A model passes the contract just if its features can be told, all of them are in the spec, and,
-- where the order is strict, they are the first of the spec in its order. They are then returned as
-- they are.
pub validate_feature_contract_iff :
    (spec : FeatureSpec) (strict_order : Bool) (model : Model) (fs : List Text)
    → (validate_feature_contract spec strict_order model ≡ ok fs) ↔ (
        (model_required_features model ≡ ok fs)
        × (all (is_member (names spec)) fs ≡ true)
        × ((strict_order ≡ false) ⊎ (fs ≡ take (length fs) (names spec))))
unfolding validate_feature_contract check_required
validate_feature_contract_iff spec strict_order model fs =
    elim (Result-cases (model_required_features model)) [
      | inl (e, f) ↦ ground arith
      | inr (required, f) ↦ ground (
        arith,
        missing_iff (is_member (names spec)) required,
        same_texts_iff required (take (length required) (names spec)),
      )
    ]
