-- ===== src/Features.antt =====
-- forecast/features.py: the feature contract between a model and the live path. The descriptions of
-- the fields and their dtype, which is always float32, are left out; a feature's kind is a data type.
pub mod Contract
use keel_trader.Base.{
  ℕ, zero, suc, ◌+◌, Bool, true, false, not, Option, none, some, List, [], ◌∷◌, map, filter, any,
  all, length, take, if◌then◌else◌, Eq, same,
}
use keel_trader.Base.Text.{Text, codes, text_eq}
use keel_trader.Outcome.{Result, ok, err, value_error, key_error}

pub data Kind : Type 0 where
  forecast technical : Kind

pub record FeatureField : Type 0 where
  pub name : Text
  pub kind : Kind

abbrev pub same_kind : Kind → Kind → Bool
same_kind forecast forecast = true
same_kind technical technical = true
same_kind _ _ = false

-- The fields of a `FeatureSpec`.
abbrev pub FeatureSpec : Type 0
FeatureSpec = List FeatureField

abbrev pub names : FeatureSpec → List Text
names spec = map (λ f. f.name) spec

-- `FeatureSpec.index`
unfoldable pub index_from : ℕ → FeatureSpec → Text → Result ℕ
index_from i [] name = err key_error
index_from i (f ∷ fields) name =
    let rest = index_from (i + 1) fields name in if same (f.name) name then ok i else rest

abbrev pub index : FeatureSpec → Text → Result ℕ
index spec name = index_from 0 spec name

unfoldable pub names_of_kind : FeatureSpec → Kind → List Text
names_of_kind spec kind = names (filter (λ f. same_kind (f.kind) kind) spec)

-- `FEATURE_SPEC`
abbrev pub feature_spec : FeatureSpec
feature_spec =
    record { name = codes "chronos_close_delta_h1"; kind = forecast }
    ∷ record { name = codes "chronos_high_delta_h1"; kind = forecast }
    ∷ record { name = codes "chronos_low_delta_h1"; kind = forecast }
    ∷ record { name = codes "chronos_close_delta_h24"; kind = forecast }
    ∷ record { name = codes "chronos_high_delta_h24"; kind = forecast }
    ∷ record { name = codes "chronos_low_delta_h24"; kind = forecast }
    ∷ record { name = codes "forecast_confidence_h1"; kind = forecast }
    ∷ record { name = codes "forecast_confidence_h24"; kind = forecast }
    ∷ record { name = codes "return_1h"; kind = technical }
    ∷ record { name = codes "return_24h"; kind = technical }
    ∷ record { name = codes "volatility_24h"; kind = technical }
    ∷ record { name = codes "ma_delta_24h"; kind = technical }
    ∷ record { name = codes "ma_delta_72h"; kind = technical }
    ∷ record { name = codes "atr_pct_24h"; kind = technical }
    ∷ record { name = codes "trend_72h"; kind = technical }
    ∷ record { name = codes "drawdown_72h"; kind = technical }
    ∷ []

-- What a model is to `model_required_features`: nothing, a list of names, a dict with or without
-- its features, or an object with its two attributes and the names of its booster, if it has one.
pub data Model : Type 0 where
  no_model : Model
  listed : List Text → Model
  mapping : Option (List Text) → Model
  object : (feature_names feature_names_in booster : Option (List Text)) → Model

-- `FeatureContractError` is a `ValueError`. The names of a booster count if there are any.
unfoldable pub model_required_features : Model → Result (List Text)
model_required_features no_model = err value_error
model_required_features (listed fs) = ok fs
model_required_features (mapping (some fs)) = ok fs
model_required_features (mapping none) = err value_error
model_required_features (object (some fs) _ _) = ok fs
model_required_features (object none (some fs) _) = ok fs
model_required_features (object none none (some (f ∷ fs))) = ok (f ∷ fs)
model_required_features (object none none _) = err value_error

abbrev pub is_member : List Text → Text → Bool
is_member fs f = any (same f) fs

abbrev pub same_texts : List Text → List Text → Bool
same_texts [] [] = true
same_texts (f ∷ fs) (g ∷ gs) = if same f g then same_texts fs gs else false
same_texts _ _ = false

-- The checks on the features required.
unfoldable pub check_required : FeatureSpec → Bool → List Text → Result (List Text)
check_required spec strict_order required =
    let missing = filter (λ f. not (is_member (names spec) f)) required in
    elim missing as (λ _. Result (List Text)) [
      | _ ∷ _ ↦ err value_error
      | [] ↦
          if strict_order
          then (if same_texts required (take (length required) (names spec))
              then ok required
              else err value_error)
          else ok required
    ]

unfoldable pub validate_feature_contract : FeatureSpec → Bool → Model → Result (List Text)
validate_feature_contract spec strict_order model =
    elim (model_required_features model) as (λ _. Result (List Text)) [
      | err e ↦ err e
      | ok required ↦ check_required spec strict_order required
    ]
