-- ===== src/Tests/Models.antt =====
-- A choice among three logits, and a model that needs two features of the spec.
use keel_trader.Base.{◌≡◌, ◌↔◌, ◌⊎◌, refl, true, false, List, [], ◌∷◌, all, length, take, some}
use keel_trader.Base.Text.{Text, codes}
use keel_trader.Double.Fixed.{Fixed, fixed_double}
use keel_trader.Outcome.{ok}
use keel_trader.Policy.{choose, best}
use keel_trader.Features.{
  feature_spec, names, listed, is_member, model_required_features, validate_feature_contract,
}
use keel_trader.Features.Contract.{validate_feature_contract_iff}
use keel_trader.Tests.Samples.{whole}

abbrev values : List Fixed
values = whole 2 ∷ whole 7 ∷ whole 5 ∷ []

chosen : choose values ≡ some 1
unfolding choose best
chosen = refl

abbrev needed : List Text
needed = codes "chronos_close_delta_h1" ∷ codes "chronos_high_delta_h1" ∷ []

validate_feature_contract_iff_example :
    (validate_feature_contract feature_spec true (listed needed) ≡ ok needed) ↔ (
      (model_required_features (listed needed) ≡ ok needed)
      × (all (is_member (names feature_spec)) needed ≡ true)
      × ((true ≡ false) ⊎ (needed ≡ take (length needed) (names feature_spec))))
validate_feature_contract_iff_example =
    validate_feature_contract_iff feature_spec true (listed needed) needed
