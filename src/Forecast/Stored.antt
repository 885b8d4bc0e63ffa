-- ===== src/Forecast/Stored.antt =====
-- sim/export_data.py: what is read of the cache.
use keel_trader.Base.{ℕ, ◌<◌, ◌≡◌, refl, ap, List, [], ◌∷◌, map, arith, some, ◌∙◌}
use keel_trader.Base.Dict.{lookup, insert, lookup-insert}
use keel_trader.Base.Text.{Text, text_eq, text_beq_refl}
use keel_trader.Outcome.{ok}
use keel_trader.Forecast.{
  ForecastRow, Cache, path_of, quantiles_of, assert_no_leakage, write_cache, load_forecast,
  sort_index, index_insert,
}

module _ {F : Type 0} where
  -- The rows come in the order of time, as the anchors of a series do.
  abbrev pub IsAscending : List (ForecastRow F) → Type 0
  IsAscending [] = Unit
  IsAscending (r ∷ []) = Unit
  IsAscending (r ∷ s ∷ rows) = (r.timestamp < s.timestamp) × IsAscending (s ∷ rows)

  sort_index-ascending :
      (rows : List (ForecastRow F))
      → IsAscending rows
      → sort_index (map quantiles_of rows) ≡ map quantiles_of rows
  sort_index-ascending [] h = refl
  sort_index-ascending (r ∷ []) h = refl
  sort_index-ascending (r ∷ s ∷ rows) (h, hs) =
      let ih = sort_index-ascending (s ∷ rows) hs in
      ap (index_insert (quantiles_of r)) ih ∙ ground arith

  -- Rows in the order of time, at least one, that pass the leakage check are written, and reading
  -- the symbol and the horizon gives back their quantiles in the same order.
  pub load_forecast-write_cache :
      (symbol : Text) (horizon : ℕ) (r : ForecastRow F) (rows : List (ForecastRow F))
      (cache : Cache F)
      → assert_no_leakage (r ∷ rows) ≡ ok tt
      → IsAscending (r ∷ rows)
      → ((write_cache symbol horizon (r ∷ rows) cache).0 ≡ ok (path_of symbol horizon))
        × (load_forecast symbol horizon ((write_cache symbol horizon (r ∷ rows) cache).1)
            ≡ ok (map quantiles_of (r ∷ rows)))
  unfolding write_cache load_forecast
  load_forecast-write_cache symbol horizon r rows cache e h =
      let path = path_of symbol horizon in
      let frame = map quantiles_of (r ∷ rows) in
      let found : lookup path (insert path frame cache) ≡ some frame =
        ground (arith, lookup-insert path path frame cache, text_beq_refl path) in
      let written : write_cache symbol horizon (r ∷ rows) cache
          ≡ (ok path, insert path frame cache) =
        rw (e, write_cache) refl in
      (
        ap (λ q. q.0) written,
        ap (λ q. load_forecast symbol horizon (q.1)) written
            ∙ rw (found, load_forecast) (ap ok (sort_index-ascending (r ∷ rows) h)),
      )
