-- ===== src/Build/Joined.antt =====
-- sim/kraken_data.py: which forecast reaches which bar, and that nothing else of the array changes.
use keel_trader.Base.{
  ℕ, zero, suc, ◌<◌, ◌≡◌, ◌∙◌, refl, ap, false, Option, none, some, List, [], ◌∷◌, ◌++◌, map, drop,
  get_or, get_elem?, length, length-append, length-drop, length-map, All, All-map, arith, ◌==◌,
}
use keel_trader.Double.{Double}
use keel_trader.MarketBin.Fields.{FloatCodec}
use keel_trader.MarketBin.Blocks.{Row, IsRow, IsBlock}
use keel_trader.History.{Ohlcv}
use keel_trader.Forecast.{Quantiles}
use keel_trader.Build.Forecasts.{
  Frames, row_at_time, forecast_cells, forecast_column, write_cell, write_column, write_symbol,
}

-- The features of a symbol at a time.
abbrev pub cell_of : {F : Type 0} → List (Row F) → (t s : ℕ) → List F
cell_of feats t s = get_or (get_or feats t []) s []

module _ {F : Type 0} where
  write_cell_self :
      (s : ℕ) (fc : List F) (row : Row F)
      → s < length row
      → get_or (write_cell s fc row) s [] ≡ fc ++ drop 8 (get_or row s [])
  write_cell_self s fc [] h = elim h [ ]
  write_cell_self zero fc (cell ∷ row) h = refl
  write_cell_self (suc s) fc (cell ∷ row) h = write_cell_self s fc row (omega (arith, h))

  write_cell-other :
      (s j : ℕ) (fc : List F) (row : Row F)
      → (j == s) ≡ false
      → get_or (write_cell s fc row) j [] ≡ get_or row j []
  write_cell-other s j fc [] h = refl
  write_cell-other zero zero fc (cell ∷ row) h = ground arith
  write_cell-other zero (suc j) fc (cell ∷ row) h = refl
  write_cell-other (suc s) zero fc (cell ∷ row) h = refl
  write_cell-other (suc s) (suc j) fc (cell ∷ row) h = write_cell-other s j fc row (ground arith)

  write_column-other :
      (s t j : ℕ) (column : List (List F)) (feats : List (Row F))
      → (j == s) ≡ false
      → cell_of (write_column s column feats) t j ≡ cell_of feats t j
  unfolding write_column
  write_column-other s t j [] feats h = refl
  write_column-other s t j (fc ∷ column) [] h = refl
  write_column-other s zero j (fc ∷ column) (row ∷ feats) h = write_cell-other s j fc row h
  write_column-other s (suc t) j (fc ∷ column) (row ∷ feats) h =
      write_column-other s t j column feats h

  write_column_self :
      (s t n : ℕ) (column : List (List F)) (feats : List (Row F)) {fc : List F}
      → get_elem? column t ≡ some fc
      → t < length feats
      → All (λ row. length row ≡ n) feats
      → s < n
      → cell_of (write_column s column feats) t s ≡ fc ++ drop 8 (cell_of feats t s)
  unfolding write_column
  write_column_self s t n [] feats e h all k = cc
  write_column_self s t n (fc ∷ column) [] e h all k = elim h [ ]
  write_column_self s zero n (fc' ∷ column) (row ∷ feats) {fc} e h (w, ws) k =
      let same_fc : fc' ≡ fc = cc in
      write_cell_self s fc' row (omega (arith, w, k))
      ∙ ap (λ z. z ++ drop 8 (get_or row s [])) same_fc
  write_column_self s (suc t) n (fc' ∷ column) (row ∷ feats) e h (w, ws) k =
      write_column_self s t n column feats e (omega (arith, h)) ws k

  write_cell-IsRow :
      (s n : ℕ) (fc : List F) (row : Row F)
      → length fc ≡ 8
      → IsRow 16 n row
      → IsRow 16 n (write_cell s fc row)
  write_cell-IsRow s n fc [] h r = r
  write_cell-IsRow zero n fc (cell ∷ row) h (k, (w, ws)) =
      (k, (omega (arith, h, w, length-append fc (drop 8 cell), length-drop 8 cell), ws))
  write_cell-IsRow (suc s) zero fc (cell ∷ row) h (k, (w, ws)) = ground arith
  write_cell-IsRow (suc s) (suc n) fc (cell ∷ row) h (k, (w, ws)) =
      let (k', ws') = write_cell-IsRow s n fc row h (omega (arith, k), ws) in (ap suc k', (w, ws'))

  write_column-IsBlock :
      (s n nt : ℕ) (column : List (List F)) (feats : List (Row F))
      → All (λ fc. length fc ≡ 8) column
      → IsBlock 16 n nt feats
      → IsBlock 16 n nt (write_column s column feats)
  unfolding write_column
  write_column-IsBlock s n nt [] feats h b = b
  write_column-IsBlock s n nt (fc ∷ column) [] h b = b
  write_column-IsBlock s n zero (fc ∷ column) (row ∷ feats) h (k, b) = ground arith
  write_column-IsBlock s n (suc nt) (fc ∷ column) (row ∷ feats) (h, hs) (k, (r, rs)) =
      let (k', rs') = write_column-IsBlock s n nt column feats hs (omega (arith, k), rs) in
      (ap suc k', (write_cell-IsRow s n fc row h r, rs'))

module _ {F : Type 0} ⦃d : Double F⦄ (codec : FloatCodec F) where
  forecast_cells-length :
      (h1 h24 : Option (Quantiles F)) (close : F) → length (forecast_cells h1 h24 close) ≡ 8
  unfolding forecast_cells
  forecast_cells-length none none close = refl
  forecast_cells-length none (some r) close = refl
  forecast_cells-length (some q) none close = refl
  forecast_cells-length (some q) (some r) close = refl

  -- The features of a cell after the forecasts of its bar are joined: the technical ones, from
  -- index 8 on, stay as they were.
  abbrev pub joined_cell : Frames F → (ts_ms : ℕ) → Ohlcv F → (before : List F) → List F
  joined_cell none ts_ms bar before = before
  joined_cell (some (fc_h1, fc_h24)) ts_ms bar before =
      map (codec.single) (
        forecast_cells (row_at_time fc_h1 ts_ms) (row_at_time fc_h24 ts_ms)
          (codec.single (bar.close)))
      ++ drop 8 before

  forecast_column-lengths :
      (f1 f24 : List (Quantiles F)) (grid : List ℕ) (bars : List (Ohlcv F))
      → All (λ fc. length fc ≡ 8) (forecast_column codec (f1, f24) grid bars)
  unfolding forecast_column
  forecast_column-lengths f1 f24 [] bars = tt
  forecast_column-lengths f1 f24 (t ∷ grid) [] = tt
  forecast_column-lengths f1 f24 (t ∷ grid) (b ∷ bars) = (
    length-map (codec.single) _ ∙ forecast_cells-length (row_at_time f1 t) (row_at_time f24 t) _,
    forecast_column-lengths f1 f24 grid bars,
  )

  forecast_column-at :
      (f1 f24 : List (Quantiles F)) (grid : List ℕ) (bars : List (Ohlcv F)) (t : ℕ) {ms : ℕ}
      {b : Ohlcv F}
      → get_elem? grid t ≡ some ms
      → get_elem? bars t ≡ some b
      → get_elem? (forecast_column codec (f1, f24) grid bars) t
        ≡ some (
            map
              (codec.single)
              (forecast_cells (row_at_time f1 ms) (row_at_time f24 ms) (codec.single (b.close))))
  unfolding forecast_column
  forecast_column-at f1 f24 [] bars t e f = cc
  forecast_column-at f1 f24 (m ∷ grid) [] t e f = cc
  forecast_column-at f1 f24 (m ∷ grid) (c ∷ bars) zero e f = cc
  forecast_column-at f1 f24 (m ∷ grid) (c ∷ bars) (suc t) e f =
      forecast_column-at f1 f24 grid bars t e f

  pub write_symbol-IsBlock :
      (s n nt : ℕ) (grid : List ℕ) (bars : List (Ohlcv F)) (found : Frames F) (feats : List (Row F))
      → IsBlock 16 n nt feats
      → IsBlock 16 n nt (write_symbol codec s grid bars found feats)
  write_symbol-IsBlock s n nt grid bars none feats b = b
  write_symbol-IsBlock s n nt grid bars (some (f1, f24)) feats b =
      write_column-IsBlock s n nt (forecast_column codec (f1, f24) grid bars) feats
        (forecast_column-lengths f1 f24 grid bars) b

  pub write_symbol-other :
      (s t j : ℕ) (grid : List ℕ) (bars : List (Ohlcv F)) (found : Frames F) (feats : List (Row F))
      → (j == s) ≡ false
      → cell_of (write_symbol codec s grid bars found feats) t j ≡ cell_of feats t j
  write_symbol-other s t j grid bars none feats h = refl
  write_symbol-other s t j grid bars (some frames) feats h =
      write_column-other s t j (forecast_column codec frames grid bars) feats h

  pub write_symbol_self :
      (s t n nt : ℕ) (grid : List ℕ) (bars : List (Ohlcv F)) (found : Frames F)
      (feats : List (Row F)) {ms : ℕ} {b : Ohlcv F}
      → get_elem? grid t ≡ some ms
      → get_elem? bars t ≡ some b
      → IsBlock 16 n nt feats
      → t < nt
      → s < n
      → cell_of (write_symbol codec s grid bars found feats) t s
        ≡ joined_cell found ms b (cell_of feats t s)
  write_symbol_self s t n nt grid bars none feats e f b h k = refl
  write_symbol_self s t n nt grid bars (some (f1, f24)) feats e f (len, rows) h k =
      write_column_self s t n (forecast_column codec (f1, f24) grid bars) feats
        (forecast_column-at f1 f24 grid bars t e f) (omega (arith, len, h))
        (All-map (IsRow 16 n) (λ row. length row ≡ n) feats (λ row r. r.0) rows) k
