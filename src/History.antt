-- ===== src/History.antt =====
-- sim/kraken_data.py, with the cadence of sim/universe.py and `series_by_symbol` of
-- forecast/build_kraken_cache.py: from the pages of an exchange or a dump to aligned bars. The
-- calls of ccxt, the clock, the conversions `float(s)` and `int(float(s))` of a dump's fields, and
-- numpy's rounding to single precision are parameters. Times are in ms from the epoch, not before
-- it; the pauses between pages and what is printed are left out.
pub mod Paging
pub mod Merging
pub mod Filling
use keel_trader.Base.{
  ℕ, zero, suc, ◌+◌, ◌-◌, ◌*◌, ◌/◌, min, max, nat_eq, Bool, true, false, Option, none, some, List,
  [], ◌∷◌, ◌++◌, map, filter, length, get_or, range, ltb, leb, ◌==◌, same, if◌then◌else◌,
  or_default,
}
use keel_trader.Base.Dict.{Dict, lookup, insert, update}
use keel_trader.Base.Text.{Text, codes, has_char, text_eq}
use keel_trader.Double.{Double}
use keel_trader.Outcome.{Result, ok, err, value_error, or_error, ◌>>=◌}

-- A bar: `[o, h, l, c, v]`.
pub record Ohlcv (F : Type 0) : Type 0 where
  pub open_price : F
  pub high : F
  pub low : F
  pub close : F
  pub volume : F

-- The bars of a symbol by their time, and those of all symbols.
abbrev pub Bars : Type 0 → Type 0
Bars F = Dict ℕ (Ohlcv F)

abbrev pub Series : Type 0 → Type 0
Series F = Dict Text (Bars F)

-- What `align_to_grid` returns; the prices by symbol, then by time, still in double precision.
pub record Aligned (F : Type 0) : Type 0 where
  pub kept : List Text
  pub grid : List ℕ
  pub prices : List (List (Ohlcv F))

-- A series of `series_by_symbol`, in the order of time.
pub record Track (F : Type 0) : Type 0 where
  pub symbol : Text
  pub timestamp : List ℕ
  pub close : List F
  pub high : List F
  pub low : List F

-- `TIMEFRAME_MS`
abbrev pub timeframe_ms : Dict Text ℕ
timeframe_ms = (codes "1h", 3_600_000) ∷ (codes "4h", 14_400_000) ∷ (codes "1d", 86_400_000) ∷ []

unfoldable pub ms_per_bar : Text → Result ℕ
ms_per_bar timeframe = or_error (lookup timeframe timeframe_ms) value_error

-- `_BINANCE_BACKFILL`
abbrev pub binance_backfill : Dict Text Text
binance_backfill =
    (codes "BTC/USD", codes "BTC/USDT")
    ∷ (codes "ETH/USD", codes "ETH/USDT")
    ∷ (codes "SOL/USD", codes "SOL/USDT")
    ∷ (codes "XRP/USD", codes "XRP/USDT")
    ∷ (codes "LTC/USD", codes "LTC/USDT")
    ∷ []

-- `base, quote = symbol.split("/")`, which raises unless there is one slash.
abbrev pub split_pair : Text → Option (Text × Text)
split_pair [] = none
split_pair (c ∷ s) =
    let rest = split_pair s in
    if c == b'/'
    then (if has_char b'/' s then none else some ([], s))
    else elim rest as (λ _. Option (Text × Text)) [
      | none ↦ none
      | some (base, quote) ↦ some (c ∷ base, quote)
    ]

abbrev pub dump_name : (base quote : Text) → Text
dump_name base quote =
    (if same base (codes "BTC") then codes "XBT" else base) ++ (quote ++ codes "_60.csv")

-- The end: none, or the end 0, is now.
abbrev pub until_of : (now_ms : ℕ) → (until_ms : Option ℕ) → ℕ
until_of now_ms until_ms =
    let end_ms = or_default until_ms 0 in if same end_ms 0 then now_ms else end_ms

module _ {F : Type 0} where
  -- One page into the bars so far.
  abbrev pub keep_page : (until_ms : ℕ) → List (ℕ × Ohlcv F) → Bars F → Bars F
  keep_page until_ms [] out = out
  keep_page until_ms ((ts, bar) ∷ batch) out =
      keep_page until_ms batch (if leb ts until_ms then insert ts bar out else out)

  -- `batch[-1][0]`, of a batch with this head
  abbrev pub last_time : ℕ × Ohlcv F → List (ℕ × Ohlcv F) → ℕ
  last_time (ts, bar) [] = ts
  last_time (ts, bar) (b ∷ batch) = last_time b batch

  -- The loop of `fetch_ohlcv_paged`, for so many pages at most; a call may raise.
  unfoldable pub page_loop :
      (fetch : (since : ℕ) → Result (List (ℕ × Ohlcv F)))
      → (step until_ms fuel cursor : ℕ) → Bars F
      → Option (Result (Bars F))
  page_loop fetch step until_ms zero cursor out = none
  page_loop fetch step until_ms (suc fuel) cursor out =
      if ltb cursor until_ms
      then elim (fetch cursor) as (λ _. Option (Result (Bars F))) [
        | err e ↦ some (err e)
        | ok [] ↦ some (ok out)
        | ok (b ∷ batch) ↦
            let out' = keep_page until_ms (b ∷ batch) out in
            let last_ts = last_time b batch in
            let rest = page_loop fetch step until_ms fuel (last_ts + step) out' in
            if ltb last_ts (cursor + step) then some (ok out') else rest
      ]
      else some (ok out)

  -- `fetch_ohlcv_paged`
  unfoldable pub fetch_ohlcv_paged :
      (fetch : (since : ℕ) → Result (List (ℕ × Ohlcv F)))
      → (now_ms since_ms : ℕ) → Option ℕ
      → (timeframe : Text) → (fuel : ℕ) → Option (Result (Bars F))
  fetch_ohlcv_paged fetch now_ms since_ms until_ms timeframe fuel =
      elim (ms_per_bar timeframe) as (λ _. Option (Result (Bars F))) [
        | err e ↦ some (err e)
        | ok step ↦ page_loop fetch step (until_of now_ms until_ms) fuel since_ms []
      ]

  -- The loop of `load_kraken_csv` over the rows; a row with less than six fields is passed over.
  unfoldable pub load_rows :
      (time : Text → Option ℕ)
      → (number : Text → Option F) → List (List Text)
      → Bars F
      → Result (Bars F)
  load_rows time number [] out = ok out
  load_rows time number ((ts_s ∷ o ∷ h ∷ l ∷ c ∷ v ∷ more) ∷ rows) out = do
    ts ← or_error (time ts_s) value_error
    o' ← or_error (number o) value_error
    h' ← or_error (number h) value_error
    l' ← or_error (number l) value_error
    c' ← or_error (number c) value_error
    v' ← or_error (number v) value_error
    load_rows time number rows (
        insert (ts * 1000)
          (record { open_price = o'; high = h'; low = l'; close = c'; volume = v' }) out)
  load_rows time number (_ ∷ rows) out = load_rows time number rows out

  -- `load_kraken_csv`, with the dumps by their file names; no dump is no bars.
  unfoldable pub load_kraken_csv :
      (time : Text → Option ℕ)
      → (number : Text → Option F) → (dumps : Dict Text (List (List Text))) → (symbol : Text)
      → Result (Bars F)
  load_kraken_csv time number dumps symbol = do
    (base, quote) ← or_error (split_pair symbol) value_error
    elim (lookup (dump_name base quote) dumps) as (λ _. Result (Bars F)) [
      | none ↦ ok []
      | some rows ↦ load_rows time number rows []
    ]

  -- `fetch_kraken`, with the fetch of one symbol
  unfoldable pub fetch_kraken :
      (fetch : Text → Result (Bars F)) → (symbols : List Text) → Series F → Result (Series F)
  fetch_kraken fetch [] series = ok series
  fetch_kraken fetch (sym ∷ symbols) series = do
    bars ← fetch sym
    fetch_kraken fetch symbols (insert sym bars series)

  -- `fetch_binance_backfill`: a symbol without a pair is passed over.
  unfoldable pub fetch_binance_backfill :
      (fetch : Text → Result (Bars F)) → (symbols : List Text) → Series F → Result (Series F)
  fetch_binance_backfill fetch [] series = ok series
  fetch_binance_backfill fetch (sym ∷ symbols) series =
      elim (lookup sym binance_backfill) as (λ _. Result (Series F)) [
        | none ↦ fetch_binance_backfill fetch symbols series
        | some pair ↦ do
          bars ← fetch pair
          fetch_binance_backfill fetch symbols (insert sym bars series)
      ]

  -- One source into the merged series: `out.setdefault(sym, {}).update(bars)` for each symbol.
  unfoldable pub merge_into : Series F → Series F → Series F
  merge_into out [] = out
  merge_into out ((sym, bars) ∷ src) =
      merge_into (insert sym (update (or_default (lookup sym out) []) bars) out) src

  abbrev pub merge_from : Series F → List (Series F) → Series F
  merge_from out [] = out
  merge_from out (src ∷ sources) = merge_from (merge_into out src) sources

  -- `merge_series`
  unfoldable pub merge_series : List (Series F) → Series F
  merge_series sources = merge_from [] sources

  -- `series.get(s)`, with an empty dict as none
  abbrev pub bars_of : Series F → Text → Bars F
  bars_of series sym = or_default (lookup sym series) []

  abbrev pub has_bars : Series F → Text → Bool
  has_bars series sym = elim (bars_of series sym) [ [] ↦ false | _ ∷ _ ↦ true ]

  -- `min(bars)` and `max(bars)`, of a dict that has a bar
  abbrev pub first_time : Bars F → ℕ
  first_time [] = 0
  first_time ((ts, bar) ∷ []) = ts
  first_time ((ts, bar) ∷ b ∷ bars) = min ts (first_time (b ∷ bars))

  abbrev pub final_time : Bars F → ℕ
  final_time [] = 0
  final_time ((ts, bar) ∷ bars) = max ts (final_time bars)

-- `max` and `min` of some numbers, at least one
abbrev pub greatest : List ℕ → ℕ
greatest [] = 0
greatest (n ∷ ns) = max n (greatest ns)

abbrev pub least : List ℕ → ℕ
least [] = 0
least (n ∷ []) = n
least (n ∷ m ∷ ns) = min n (least (m ∷ ns))

-- So many times, a step apart.
abbrev pub times : (start step count : ℕ) → List ℕ
times start step zero = []
times start step (suc n) = start ∷ times (start + step) step n

-- `range(first, last + step, step)`, from `first` to no less than `last`
abbrev pub grid_of : (first last step : ℕ) → List ℕ
grid_of first last step = times first step ((last + step - first + step - 1) / step)

module _ {F : Type 0} ⦃d : Double F⦄ where
  -- `[c, c, c, c, 0.0]`
  abbrev pub flat_bar : F → Ohlcv F
  flat_bar c = record { open_price = c; high = c; low = c; close = c; volume = d.nought }

  -- `np.zeros`
  abbrev pub no_bar : Ohlcv F
  no_bar = flat_bar (d.nought)

  -- The loop over the grid for one symbol, with the last bar so far: its rows of prices, still in
  -- double precision.
  unfoldable pub fill : Bars F → Option (Ohlcv F) → List ℕ → List (Ohlcv F)
  fill bars last_bar [] = []
  fill bars last_bar (ts ∷ grid) =
      let carried = elim last_bar as (λ _. Option (Ohlcv F)) [
        | none ↦ none
        | some b ↦ some (flat_bar (b.close))
      ] in
      let bar = elim (lookup ts bars) as (λ _. Option (Ohlcv F)) [
        | some b ↦ some b
        | none ↦ carried
      ] in
      elim bar as (λ _. List (Ohlcv F)) [
        | none ↦ no_bar ∷ fill bars last_bar grid
        | some b ↦ b ∷ fill bars (some b) grid
      ]

  -- The row of the array for a bar, each number rounded to single precision.
  abbrev pub price_row : (single : F → F) → Ohlcv F → List F
  price_row single b =
      single (b.open_price)
      ∷ single (b.high)
      ∷ single (b.low)
      ∷ single (b.close)
      ∷ single (b.volume)
      ∷ []

  -- The part past the step: the grid from the latest first bar to the earliest last one.
  abbrev pub align_from : Series F → (present : List Text) → (step : ℕ) → Result (Aligned F)
  align_from series present step =
      let first = greatest (map (λ s. first_time (bars_of series s)) present) in
      let last = least (map (λ s. final_time (bars_of series s)) present) in
      let grid = grid_of first last step in
      if ltb last first
      then err value_error
      else ok (record {
        kept = present;
        grid = grid;
        prices = map (λ s. fill (bars_of series s) none grid) present;
      })

  unfoldable pub align_to_grid :
      Series F → (symbols : List Text) → (timeframe : Text) → Result (Aligned F)
  align_to_grid series symbols timeframe =
      let present = filter (has_bars series) symbols in
      elim present as (λ _. Result (Aligned F)) [
        | [] ↦ err value_error
        | _ ∷ _ ↦ ms_per_bar timeframe >>= align_from series present
      ]

  -- The array of the prices, by time and symbol, each number rounded to single precision.
  abbrev pub price_block : (single : F → F) → Aligned F → List (List (List F))
  price_block single a =
      map (λ t. map (λ column. price_row single (get_or column t no_bar)) (a.prices))
        (range (length (a.grid)))

module _ {F : Type 0} where
  -- `sorted(bars)`, with the bars
  abbrev pub time_insert : ℕ × Ohlcv F → Bars F → Bars F
  time_insert (ts, bar) [] = (ts, bar) ∷ []
  time_insert (ts, bar) ((u, b) ∷ bars) =
      let rest = time_insert (ts, bar) bars in
      if ltb u ts then (u, b) ∷ rest else (ts, bar) ∷ (u, b) ∷ bars

  abbrev pub time_sort : Bars F → Bars F
  time_sort [] = []
  time_sort (b ∷ bars) = time_insert b (time_sort bars)

  -- The series of a symbol, with its times in seconds.
  abbrev pub track_of : Text → Bars F → Track F
  track_of sym bars = record {
    symbol = sym;
    timestamp = map (λ b. b.0 / 1000) (time_sort bars);
    close = map (λ b. b.1.close) (time_sort bars);
    high = map (λ b. b.1.high) (time_sort bars);
    low = map (λ b. b.1.low) (time_sort bars);
  }

  -- `series_by_symbol`
  unfoldable pub series_by_symbol : Series F → Dict Text (Track F)
  series_by_symbol [] = []
  series_by_symbol ((sym, []) ∷ merged) = series_by_symbol merged
  series_by_symbol ((sym, b ∷ bars) ∷ merged) =
      (sym, track_of sym (b ∷ bars)) ∷ series_by_symbol merged
