-- ===== src/Build/Merge.antt =====
-- sim/export_data.py: `export_binary`, the symbols on the times that all of them have.
use keel_trader.Base.{
  ℕ, ◌==◌, Option, none, some, List, [], ◌∷◌, map, filter, length, replicate, get_or, ltb, range,
  if◌then◌else◌, or_default, nat_eq,
}
use keel_trader.Base.Dict.{Dict, lookup, insert, contains}
use keel_trader.Base.Text.{Text, text_eq}
use keel_trader.Double.{Double, eq}
use keel_trader.Outcome.{Result, ok, err, file_not_found, index_error, system_exit, ◌>>=◌}
use keel_trader.MarketBin.Fields.{Bytes, FloatCodec}
use keel_trader.History.{Ohlcv, Bars}
use keel_trader.Forecast.{Cache}
use keel_trader.Build.{features_per_sym, bin_version, write_arrays, by_time}
use keel_trader.Build.Forecasts.{Frames, fill_na, load_both}
use keel_trader.Build.Export.{
  Pandas, DataRoot, Held, intersection, sort_times, date_filter, loc, load_price_data, valid_idx,
  compute_features,
}

-- `all_features` with `all_prices`, and `common_index`.
pub record Merged (F : Type 0) : Type 0 where
  pub held : Dict Text (Held F)
  pub common_index : Option (List ℕ)

-- What the arrays are built from.
pub record Plan (F : Type 0) : Type 0 where
  pub valid_symbols : List Text
  pub grid : List ℕ
  pub loaded : Dict Text (Held F)

-- Whether enough times are left.
abbrev pub enough : (min_rows : ℕ) → List ℕ → Result (List ℕ)
enough min_rows times = if ltb (length times) min_rows then err (system_exit 1) else ok times

module _ {F : Type 0} ⦃d : Double F⦄ (pandas : Pandas F) (cache : Cache F)
    (data_root : DataRoot F) where
  -- The frames of a symbol: none where a file is missing.
  unfoldable pub load_symbol : (sym : Text) → Result (Option (Bars F) × Frames F)
  load_symbol sym = elim (load_price_data pandas sym data_root) [
    | err file_not_found ↦ ok (none, none)
    | err e ↦ err e
    | ok prices ↦ do frames ← load_both cache sym; ok (some prices, frames)
  ]

module _ {F : Type 0} ⦃d : Double F⦄ (pandas : Pandas F) (cache : Cache F) (data_root : DataRoot F)
    (min_rows : ℕ) where
  -- The turn of a symbol whose files are there.
  unfoldable pub add_symbol : (sym : Text) → Option (Bars F) × Frames F → Merged F → Merged F
  add_symbol sym (some prices, some (fc_h1, fc_h24)) m =
      let valid = valid_idx prices fc_h1 fc_h24 in
      if ltb (length valid) min_rows then m else record {
        held =
            insert sym
              (record {
                features = loc valid (compute_features pandas prices fc_h1 fc_h24);
                prices = loc valid prices;
              })
              (m.held);
        common_index =
            some (elim (m.common_index) [ none ↦ valid | some idx ↦ intersection idx valid ]);
      }
  add_symbol sym (some prices, none) m = m
  add_symbol sym (none, frames) m = m

  -- The loop over the symbols.
  unfoldable pub merge : (symbols : List Text) → Merged F → Result (Merged F)
  merge [] m = ok m
  merge (sym ∷ symbols) m = do
    frames ← load_symbol pandas cache data_root sym
    merge symbols (add_symbol sym frames m)

  -- `export_binary` up to the arrays.
  unfoldable pub plan_export :
      (symbols : List Text) → (start_date end_date : Option ℕ) → Result (Plan F)
  plan_export symbols start_date end_date = do
    m ← merge symbols (record { held = []; common_index = none })
    common ← elim (m.common_index) as (λ _. Result (List ℕ)) [
      | none ↦ err (system_exit 1)
      | some idx ↦ enough min_rows idx
    ]
    grid ← enough min_rows (date_filter start_date end_date (sort_times common))
    -- the range of times is printed
    if length grid == 0
        then err index_error
        else ok (record {
          valid_symbols = filter (λ s. contains s (m.held)) symbols;
          grid = grid;
          loaded = m.held;
        })

module _ {F : Type 0} ⦃d : Double F⦄ where
  -- A number of a column; none where the row is missing or the number is NaN.
  abbrev pub number : (Ohlcv F → F) → Option (Ohlcv F) → Option F
  number field none = none
  number field (some b) = if eq (field b) (field b) then some (field b) else none

  -- `ffill()`, after the last number before
  abbrev pub ffill : Option F → List (Option F) → List (Option F)
  ffill last [] = []
  ffill last (none ∷ xs) = last ∷ ffill last xs
  ffill last (some x ∷ xs) = some x ∷ ffill (some x) xs

  abbrev pub first_of : List (Option F) → Option F
  first_of [] = none
  first_of (none ∷ xs) = first_of xs
  first_of (some x ∷ xs) = some x

  -- `bfill()`
  abbrev pub bfill : List (Option F) → List (Option F)
  bfill [] = []
  bfill (none ∷ xs) = first_of xs ∷ bfill xs
  bfill (some x ∷ xs) = some x ∷ bfill xs

  -- A column of the prices on the grid; NaN where it has no number at all.
  unfoldable pub price_column : Bars F → (grid : List ℕ) → (Ohlcv F → F) → List F
  price_column prices grid field =
      map (λ x. or_default x (d.div (d.nought) (d.nought)))
        (bfill (ffill none (map (λ t. number field (lookup t prices)) grid)))

  -- The rows of a symbol's prices on the grid.
  unfoldable pub price_rows : Bars F → (grid : List ℕ) → List (List F)
  price_rows prices grid =
      let column = λ (field : Ohlcv F → F). price_column prices grid field in
      map
        (λ t.
          get_or (column (λ b. b.open_price)) t (d.nought)
          ∷ get_or (column (λ b. b.high)) t (d.nought)
          ∷ get_or (column (λ b. b.low)) t (d.nought)
          ∷ get_or (column (λ b. b.close)) t (d.nought)
          ∷ get_or (column (λ b. b.volume)) t (d.nought)
          ∷ [])
        (range (length grid))

  -- The rows of a symbol's features on the grid.
  unfoldable pub grid_features : Dict ℕ (List F) → (grid : List ℕ) → List (List F)
  grid_features features grid =
      map
        (λ t. map fill_na (or_default (lookup t features) (replicate features_per_sym (d.nought))))
        grid

  unfoldable pub export_binary :
      FloatCodec F
      → Pandas F
      → (symbols : List Text) → (forecast_cache : Cache F) → (data_root : DataRoot F)
      → (min_rows : ℕ) → (start_date end_date : Option ℕ) → Result Bytes
  export_binary codec pandas symbols forecast_cache data_root min_rows start_date end_date = do
    plan ← plan_export pandas forecast_cache data_root min_rows symbols start_date end_date
    let of =
        λ (s : Text). or_default (lookup s (plan.loaded)) (record { features = []; prices = [] })
    let block = λ (rows : Text → List (List F)).
        by_time codec (length (plan.grid))
          (map (λ s. map (λ row. map (codec.single) row) (rows s)) (plan.valid_symbols))
    write_arrays codec (plan.valid_symbols)
        (block (λ s. grid_features ((of s).features) (plan.grid)))
        (block (λ s. price_rows ((of s).prices) (plan.grid))) (length (plan.grid)) features_per_sym
        bin_version
