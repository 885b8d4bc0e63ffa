-- ===== src/Build/Backed.antt =====
-- sim/export_data.py: the common times of the symbols that are held.
use keel_trader.Base.{
  ℕ, ◌≡◌, Bool, true, Option, none, some, List, [], ◌∷◌, filter, All, All-map, arith, same,
  Bool-cases, inl, inr,
}
use keel_trader.Base.Dict.{Dict, insert}
use keel_trader.Base.Text.{Text, text_eq}
use keel_trader.Double.{Double}
use keel_trader.Outcome.{Result-cases, ok}
use keel_trader.History.{Bars}
use keel_trader.Forecast.{Quantiles, Cache}
use keel_trader.Build.Forecasts.{load_both}
use keel_trader.Build.Export.{
  Pandas, DataRoot, Held, is_time, index_of, stamps, intersection, valid_idx, load_price_data,
}
use keel_trader.Build.Merge.{load_symbol}
use keel_trader.Build.Times.{filter-holds, All-is_time, filter-both, is_time_self, filter-All}

module _ {F : Type 0} ⦃d : Double F⦄ (pandas : Pandas F) (cache : Cache F)
    (data_root : DataRoot F) where
  -- The files of the symbol have a bar and a forecast of either horizon at the time.
  pub record IsBacked (sym : Text) (t : ℕ) : Type 0 where
    pub prices : Bars F
    pub fc_h1 : List (Quantiles F)
    pub fc_h24 : List (Quantiles F)
    pub priced : load_price_data pandas sym data_root ≡ ok prices
    pub forecast : load_both cache sym ≡ ok (some (fc_h1, fc_h24))
    pub has_bar : is_time t (index_of prices) ≡ true
    pub has_h1 : is_time t (stamps fc_h1) ≡ true
    pub has_h24 : is_time t (stamps fc_h24) ≡ true

  -- Every held symbol is backed at every common time.
  abbrev pub Covers : Option (List ℕ) → Dict Text (Held F) → Type 0
  Covers none held = held ≡ []
  Covers (some idx) held = All (λ e. All (IsBacked (e.0)) idx) held

  pub valid_idx-IsBacked :
      (sym : Text) (prices : Bars F) (fc_h1 fc_h24 : List (Quantiles F))
      → load_price_data pandas sym data_root ≡ ok prices
      → load_both cache sym ≡ ok (some (fc_h1, fc_h24))
      → All (IsBacked sym) (valid_idx prices fc_h1 fc_h24)
  valid_idx-IsBacked sym prices fc_h1 fc_h24 p q =
      All-map _ (IsBacked sym) (valid_idx prices fc_h1 fc_h24)
        (λ t ((bar, h1), h24). record {
          prices = prices;
          fc_h1 = fc_h1;
          fc_h24 = fc_h24;
          priced = p;
          forecast = q;
          has_bar = bar;
          has_h1 = h1;
          has_h24 = h24;
        })
        (filter-both _ (λ t. is_time t (stamps fc_h24)) _
          (filter-both _ (λ t. is_time t (stamps fc_h1)) _ (is_time_self (index_of prices))))

  pub insert-Covers :
      (idx : List ℕ) (sym : Text) (h : Held F) (held : Dict Text (Held F))
      → All (IsBacked sym) idx
      → Covers (some idx) held
      → Covers (some idx) (insert sym h held)
  insert-Covers idx sym h [] b c = (b, tt)
  insert-Covers idx sym h ((j, k) ∷ held) b (c, cs) = elim (Bool-cases (same sym j)) [
    | inl e ↦ rw e (c, cs)
    | inr e ↦ rw e (c, insert-Covers idx sym h held b cs)
  ]

  pub filter-Covers :
      (p : ℕ → Bool) (idx : List ℕ) (held : Dict Text (Held F))
      → Covers (some idx) held
      → Covers (some (filter p idx)) held
  filter-Covers p idx held c =
      All-map _ (λ e. All (IsBacked (e.0)) (filter p idx)) held
        (λ e h. filter-All (IsBacked (e.0)) p idx h) c

  pub joined-Covers :
      (valid : List ℕ) (sym : Text) (h : Held F) (common : Option (List ℕ))
      (held : Dict Text (Held F))
      → All (IsBacked sym) valid
      → Covers common held
      → Covers
          (some (elim common [ none ↦ valid | some idx ↦ intersection idx valid ]))
          (insert sym h held)
  joined-Covers valid sym h none held b c = rw c (b, tt)
  joined-Covers valid sym h (some idx) held b c =
      insert-Covers (intersection idx valid) sym h held
        (All-map _ (IsBacked sym) (intersection idx valid)
          (λ t e. All-is_time (IsBacked sym) t valid b e) (filter-holds (λ t. is_time t valid) idx))
        (filter-Covers (λ t. is_time t valid) idx held c)

  pub load_symbol-found :
      (sym : Text) {prices : Bars F} {fc_h1 fc_h24 : List (Quantiles F)}
      → load_symbol pandas cache data_root sym ≡ ok (some prices, some (fc_h1, fc_h24))
      → (load_price_data pandas sym data_root ≡ ok prices)
        × (load_both cache sym ≡ ok (some (fc_h1, fc_h24)))
  unfolding load_symbol
  load_symbol-found sym e = elim (Result-cases (load_price_data pandas sym data_root)) [
    | inl (x, f) ↦ ground arith
    | inr (p, f) ↦ elim (Result-cases (load_both cache sym)) [
      | inl (x, g) ↦ ground arith
      | inr (fr, g) ↦ ground arith
    ]
  ]
