-- ===== src/Training/Labels.antt =====
-- models/xgb/train.py: the samples and labels of a market file, and the artifact of a trainer. The
-- fit, the predictions and the text of the model are parameters; dtypes are left out.
use keel_trader.Base.{
  ℕ, ◌+◌, ◌-◌, true, Option, none, some, List, [], ◌∷◌, map, range, flat_map, length, count,
  if◌then◌else◌, ◌==◌,
}
use keel_trader.Base.Int.{pos_part}
use keel_trader.Base.Text.{Text, text_eq}
use keel_trader.Double.{Double, lt, le, eq}
use keel_trader.Outcome.{Result, ok, err, value_error, overflow_error, system_exit, at, each, ◌>>=◌}
use keel_trader.Features.{feature_spec, names, listed, validate_feature_contract}
use keel_trader.MarketBin.{read_header, read_features, read_prices, read_symbols}
use keel_trader.MarketBin.Fields.{Bytes, FloatCodec}

-- `CLOSE_IDX`
abbrev pub close_idx : ℕ
close_idx = 3

-- The values that are there.
abbrev pub somes : {A : Type 0} → List (Option A) → List A
somes [] = []
somes (none ∷ os) = somes os
somes (some a ∷ os) = a ∷ somes os

-- The features of a sample and its label, 1 for up.
abbrev pub Sample : Type 0 → Type 0
Sample F = List F × ℕ

-- A block of the file: by time, then by symbol.
abbrev pub Block : Type 0 → Type 0
Block F = List (List (List F))

-- `range(t_max - horizon)` by `range(S)`
abbrev pub places : (n num_symbols : ℕ) → List (ℕ × ℕ)
places n num_symbols = flat_map (λ t. map (λ s. (t, s)) (range num_symbols)) (range n)

module _ {F : Type 0} ⦃d : Double F⦄ where
  -- `xs[t][s]`
  abbrev pub cell_at : Block F → (t s : ℕ) → Result (List F)
  cell_at block t s = do row ← at block t; at row s

  -- `prices[t][s][CLOSE_IDX]`
  abbrev pub close_at : Block F → (t s : ℕ) → Result F
  close_at prices t s = do cell ← cell_at prices t s; at cell close_idx

  -- The body of the loops: no sample where the close is not above 0.
  unfoldable pub sample_at :
      (feats prices : Block F) (horizon : ℕ) (up_threshold : F) → ℕ × ℕ → Result (Option (Sample F))
  sample_at feats prices horizon up_threshold (t, s) = do
    close_now ← close_at prices t s
    close_fut ← close_at prices (t + horizon) s
    let fwd_ret = d.div (d.sub close_fut close_now) close_now
    let label : ℕ = if lt up_threshold fwd_ret then 1 else 0
    if le close_now (d.nought) then ok none else (do x ← cell_at feats t s; ok (some (x, label)))

  -- The loops, up to the boundary `t_max`.
  unfoldable pub samples :
      (feats prices : Block F) (num_symbols t_max horizon : ℕ) (up_threshold : F)
      → Result (List (Sample F))
  samples feats prices num_symbols t_max horizon up_threshold = do
    found ←
        each (sample_at feats prices horizon up_threshold) (places (t_max - horizon) num_symbols)
    ok (somes found)

  -- `int(T * train_frac)`; a negative boundary, which leaves no sample, counts as 0.
  unfoldable pub boundary : ℕ → (train_frac : F) → Result ℕ
  boundary num_timesteps train_frac =
      let x = d.mul (d.lit num_timesteps 1) train_frac in
      elim (d.trunc x) [
        | none ↦ err (if eq x x then overflow_error else value_error)
        | some z ↦ ok (pos_part z)
      ]

  -- `build_dataset`
  unfoldable pub build_dataset :
      FloatCodec F → Bytes → (horizon : ℕ) (up_threshold train_frac : F) → Result (List (Sample F))
  build_dataset codec file horizon up_threshold train_frac = do
    feats ← read_features codec file
    prices ← read_prices codec file
    hdr ← read_header file
    t_max ← boundary (hdr.num_timesteps) train_frac
    samples feats prices (hdr.num_symbols) t_max horizon up_threshold

-- The parameters of the classifier.
pub record Params (F : Type 0) : Type 0 where
  pub n_estimators : ℕ
  pub max_depth : ℕ
  pub learning_rate : F

-- What `xgboost` does.
pub record Classifier (F : Type 0) : Type 1 where
  pub Fitted : Type 0
  pub fit : Params F → List (Sample F) → Fitted
  pub predict : Fitted → List (List F) → List ℕ
  pub model_text : Fitted → Text

-- `model.json`, and what `metadata.json` holds beside the parameters of the call.
pub record Artifact (F : Type 0) : Type 0 where
  pub model : Text
  pub feature_names : List Text
  pub horizon_bars : ℕ
  pub symbols : List Text
  pub n_samples : ℕ
  pub train_frac : F
  pub label_pos_rate : F
  pub train_accuracy : F
  pub params : Params F

-- How many predictions are the label.
abbrev pub hits : List ℕ → List ℕ → ℕ
hits [] ys = 0
hits (p ∷ ps) [] = 0
hits (p ∷ ps) (y ∷ ys) = (if p == y then 1 else 0) + hits ps ys

module _ {F : Type 0} ⦃d : Double F⦄ (xgb : Classifier F) where
  -- The artifact from samples that are not empty.
  unfoldable pub artifact :
      Params F
      → (horizon : ℕ) (train_frac : F) → List (Sample F)
      → (feature_names symbols : List Text) → Artifact F
  artifact params horizon train_frac data_set feature_names symbols =
      let model = xgb.fit params data_set in
      let y = map (λ (x : Sample F). x.1) data_set in
      let n = length data_set in
      record {
        model = xgb.model_text model;
        feature_names = feature_names;
        horizon_bars = horizon;
        symbols = symbols;
        n_samples = n;
        train_frac = train_frac;
        label_pos_rate = d.lit (count (λ label. label == 1) y) n;
        train_accuracy =
            d.lit (hits (xgb.predict model (map (λ (x : Sample F). x.0) data_set)) y) n;
        params = params;
      }

  -- `train`, with no threshold; what it writes, which it does only after the contract is checked.
  unfoldable pub train :
      FloatCodec F → Bytes → (horizon : ℕ) (train_frac : F) → Params F → Result (Artifact F)
  train codec file horizon train_frac params = do
    data_set ← build_dataset codec file horizon (d.nought) train_frac
    _ ← if length data_set == 0 then err (system_exit 1) else ok data_set
    feature_names ← validate_feature_contract feature_spec true (listed (names feature_spec))
    symbols ← read_symbols file
    ok (artifact params horizon train_frac data_set feature_names symbols)
