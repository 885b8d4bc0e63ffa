-- ===== src/Tests/Bars.antt =====
-- The hours of two symbols, one of them with a hole, and an exchange of one page.
use keel_trader.Base.{ℕ, ◌+◌, ◌*◌, ◌≡◌, refl, some, List, [], ◌∷◌, arith, filter}
use keel_trader.Base.Decimal.{read_decimal}
use keel_trader.Base.Text.{Text, codes}
use keel_trader.Double.Fixed.{Fixed, fixed_double}
use keel_trader.Outcome.{Result, ok}
use keel_trader.History.{
  Ohlcv, Series, Aligned, flat_bar, has_bars, ms_per_bar, fetch_ohlcv_paged, page_loop,
  merge_series, merge_into, align_to_grid, fill, load_rows, load_kraken_csv,
}
use keel_trader.History.Paging.{IsFetched, fetch_ohlcv_paged-IsFetched}
use keel_trader.History.Merging.{bar_at, last_bar, merge_series-last_bar}
use keel_trader.History.Filling.{IsAligned, align_to_grid-IsAligned}
use keel_trader.Tests.Samples.{whole, btc}

abbrev pub hour : ℕ
hour = 3_600_000

abbrev pub bar : ℕ → Ohlcv Fixed
bar n = record {
  open_price = whole n;
  high = whole n;
  low = whole n;
  close = whole n;
  volume = whole 1;
}

abbrev pub doge : Text
doge = codes "DOGE/USD"

abbrev old : Series Fixed
old = (btc, (0, bar 1) ∷ (hour, bar 2) ∷ []) ∷ []

abbrev pub new : Series Fixed
new =
    (btc, (hour, bar 3) ∷ (3 * hour, bar 4) ∷ [])
    ∷ (doge, (hour, bar 9) ∷ (2 * hour, bar 8) ∷ (3 * hour, bar 7) ∷ [])
    ∷ []

merge_series-last_bar_example :
    bar_at btc hour (merge_series (old ∷ new ∷ [])) ≡ last_bar btc hour (old ∷ new ∷ [])
merge_series-last_bar_example = merge_series-last_bar btc hour (old ∷ new ∷ []) (
  ((refl, tt), ((refl, (refl, tt)), tt)),
  (((refl, (refl, tt)), ((refl, (refl, tt)), ((refl, (refl, (refl, tt))), tt))), tt),
)

-- The recent bar counts, and the old one where there is no recent one.
merged :
    merge_series (old ∷ new ∷ [])
    ≡ (btc, (0, bar 1) ∷ (hour, bar 3) ∷ (3 * hour, bar 4) ∷ [])
      ∷ (doge, (hour, bar 9) ∷ (2 * hour, bar 8) ∷ (3 * hour, bar 7) ∷ [])
      ∷ []
unfolding merge_series merge_into
merged = refl

abbrev pub aligned : Aligned Fixed
aligned = record {
  kept = btc ∷ doge ∷ [];
  grid = hour ∷ 2 * hour ∷ 3 * hour ∷ [];
  prices = (bar 3 ∷ flat_bar (whole 3) ∷ bar 4 ∷ []) ∷ (bar 9 ∷ bar 8 ∷ bar 7 ∷ []) ∷ [];
}

pub is_aligned : align_to_grid new (btc ∷ codes "ETH/USD" ∷ doge ∷ []) (codes "1h") ≡ ok aligned
unfolding align_to_grid fill ms_per_bar
is_aligned = refl

align_to_grid-IsAligned_example :
    (step : ℕ) × (ms_per_bar (codes "1h") ≡ ok step)
    × IsAligned new (filter (has_bars new) (btc ∷ codes "ETH/USD" ∷ doge ∷ [])) step aligned
align_to_grid-IsAligned_example =
    align_to_grid-IsAligned new (btc ∷ codes "ETH/USD" ∷ doge ∷ []) (codes "1h") is_aligned

-- The first symbol has a bar an hour before the grid and none at its start: its row there is zeros.
abbrev late : Series Fixed
late =
    (btc, (0, bar 1) ∷ (2 * hour, bar 2) ∷ []) ∷ (doge, (hour, bar 9) ∷ (2 * hour, bar 8) ∷ []) ∷ []

zeros_at_start :
    align_to_grid late (btc ∷ doge ∷ []) (codes "1h")
    ≡ ok (record {
      kept = btc ∷ doge ∷ [];
      grid = hour ∷ 2 * hour ∷ [];
      prices = (flat_bar (whole 0) ∷ bar 2 ∷ []) ∷ (bar 9 ∷ bar 8 ∷ []) ∷ [];
    })
unfolding align_to_grid fill ms_per_bar
zeros_at_start = refl

-- An exchange that always answers with the hour asked for and the next.
abbrev exchange : ℕ → Result (List (ℕ × Ohlcv Fixed))
exchange since = ok ((since, bar 1) ∷ (since + hour, bar 2) ∷ [])

fetch_ohlcv_paged-IsFetched_example :
    IsFetched (3 * hour) (fetch_ohlcv_paged exchange 0 0 (some (3 * hour)) (codes "1h") 3)
fetch_ohlcv_paged-IsFetched_example =
    fetch_ohlcv_paged-IsFetched exchange 0 0 (some (3 * hour)) (codes "1h") 2 (omega arith)

fetched :
    fetch_ohlcv_paged exchange 0 0 (some (3 * hour)) (codes "1h") 3
    ≡ some (ok ((0, bar 1) ∷ (hour, bar 2) ∷ (2 * hour, bar 1) ∷ (3 * hour, bar 2) ∷ []))
unfolding fetch_ohlcv_paged page_loop ms_per_bar
fetched = refl

-- A dump under its name, with a row that is too short.
dumped :
    load_kraken_csv read_decimal
      (λ s. some (whole 5))
      ((codes "XBTUSD_60.csv", (codes "7" ∷ [] ∷ [] ∷ [] ∷ [] ∷ [] ∷ []) ∷ (codes "8" ∷ []) ∷ [])
        ∷ [])
      (codes "BTC/USD")
    ≡ ok ((7000, record (bar 5) { volume = whole 5 }) ∷ [])
unfolding load_kraken_csv load_rows read_decimal
dumped = refl
