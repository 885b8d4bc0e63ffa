-- ===== src/Build/Planned.antt =====
-- sim/export_data.py: where the rows of an exported file come from.
use mathlib.Core.Path.{subst}
use keel_trader.Base.{
  ℕ, ◌≤◌, ◌≡◌, refl, true, Option, none, some, List, [], ◌∷◌, filter, All, arith, ltb, length, ◌==◌,
  same, Bool-cases, Option-cases, inl, inr,
}
use keel_trader.Base.Dict.{Dict, contains}
use keel_trader.Base.Text.{Text, text_eq, text_beq_iff}
use keel_trader.Double.{Double}
use keel_trader.Outcome.{ok, Gives, Gives-bind, Gives-ok}
use keel_trader.History.{Bars}
use keel_trader.Forecast.{Cache}
use keel_trader.Build.Forecasts.{Frames}
use keel_trader.Build.Export.{Pandas, DataRoot, Held, valid_idx, sort_times, date_filter}
use keel_trader.Build.Merge.{Merged, Plan, load_symbol, add_symbol, merge, enough, plan_export}
use keel_trader.Build.Times.{sort_times-All, date_filter-All, date_filter-IsWithin, IsWithin}
use keel_trader.Build.Backed.{
  valid_idx-IsBacked, joined-Covers, load_symbol-found, IsBacked, Covers,
}

module _ {F : Type 0} ⦃d : Double F⦄ (pandas : Pandas F) (cache : Cache F) (data_root : DataRoot F)
    (min_rows : ℕ) where
  add_symbol-Covers :
      (sym : Text) (frames : Option (Bars F) × Frames F) (m : Merged F)
      → load_symbol pandas cache data_root sym ≡ ok frames
      → Covers pandas cache data_root (m.common_index) (m.held)
      → let v = add_symbol pandas cache data_root min_rows sym frames m in
        Covers pandas cache data_root (v.common_index) (v.held)
  unfolding add_symbol
  add_symbol-Covers sym (none, fs) m e c = c
  add_symbol-Covers sym (some prices, none) m e c = c
  add_symbol-Covers sym (some prices, some (fc_h1, fc_h24)) m e c =
      let (p, q) = load_symbol-found pandas cache data_root sym e in
      let b = valid_idx-IsBacked pandas cache data_root sym prices fc_h1 fc_h24 p q in
      elim (Bool-cases (ltb (length (valid_idx prices fc_h1 fc_h24)) min_rows)) [
        | inl few ↦ rw few c
        | inr many ↦
            rw many (joined-Covers pandas cache data_root _ sym _ (m.common_index) (m.held) b c)
      ]

  merge-Covers :
      (symbols : List Text) (m : Merged F)
      → Covers pandas cache data_root (m.common_index) (m.held)
      → Gives
          (λ v. Covers pandas cache data_root (v.common_index) (v.held))
          (merge pandas cache data_root min_rows symbols m)
  unfolding merge
  merge-Covers [] m c = c
  merge-Covers (sym ∷ symbols) m c =
      Gives-bind _ (load_symbol pandas cache data_root sym) _ λ frames e.
        merge-Covers symbols (add_symbol pandas cache data_root min_rows sym frames m)
          (add_symbol-Covers sym frames m e c)

  -- What a plan of an export promises.
  pub record IsPlan (start_date end_date : Option ℕ) (plan : Plan F) : Type 0 where
    pub backed :
        All (λ sym. All (IsBacked pandas cache data_root sym) (plan.grid)) (plan.valid_symbols)
    pub long : min_rows ≤ length (plan.grid)
    pub within : All (IsWithin start_date end_date) (plan.grid)

  held-IsBacked :
      (sym : Text) (idx : List ℕ) (held : Dict Text (Held F))
      → Covers pandas cache data_root (some idx) held
      → contains sym held ≡ true
      → All (IsBacked pandas cache data_root sym) idx
  held-IsBacked sym idx [] c e = absurd (ground arith)
  held-IsBacked sym idx ((j, h) ∷ held) (c, cs) e = elim (Bool-cases (same sym j)) [
    | inl here ↦
        let q : j ≡ sym = ground (arith, here, text_beq_iff sym j) in
        subst (λ s. All (IsBacked pandas cache data_root s) idx) q c
    | inr there ↦ held-IsBacked sym idx held cs (ground (arith, there, e))
  ]

  valid_symbols-IsBacked :
      (symbols : List Text) (idx grid : List ℕ) (held : Dict Text (Held F))
      → Covers pandas cache data_root (some idx) held
      → ((P : ℕ → Type 0) → All P idx → All P grid)
      → All
          (λ sym. All (IsBacked pandas cache data_root sym) grid)
          (filter (λ s. contains s held) symbols)
  valid_symbols-IsBacked [] idx grid held c f = tt
  valid_symbols-IsBacked (sym ∷ symbols) idx grid held c f =
      let rest = valid_symbols-IsBacked symbols idx grid held c f in
      elim (Bool-cases (contains sym held)) [
        | inl e ↦
            rw e (f (IsBacked pandas cache data_root sym) (held-IsBacked sym idx held c e), rest)
        | inr e ↦ rw e rest
      ]

  enough-ok :
      (times kept : List ℕ)
      → enough min_rows times ≡ ok kept
      → (times ≡ kept) × (min_rows ≤ length kept)
  enough-ok times kept e = elim (Bool-cases (ltb (length times) min_rows)) [
    | inl few ↦ absurd (ground arith)
    | inr many ↦
        let q : times ≡ kept = ground arith in
        (q, subst (λ z. min_rows ≤ length z) q (ground (arith, many)))
  ]

  grid-IsPlan :
      (symbols : List Text) (start_date end_date : Option ℕ) (idx grid : List ℕ)
      (held : Dict Text (Held F))
      → Covers pandas cache data_root (some idx) held
      → enough min_rows (date_filter start_date end_date (sort_times idx)) ≡ ok grid
      → IsPlan start_date end_date (record {
        valid_symbols = filter (λ s. contains s held) symbols;
        grid = grid;
        loaded = held;
      })
  grid-IsPlan symbols start_date end_date idx grid held c e =
      let (same_grid, long) = enough-ok _ grid e in
      record {
        backed = valid_symbols-IsBacked symbols idx grid held c λ P h.
            subst (All P) same_grid
              (date_filter-All P start_date end_date _ (sort_times-All P idx h));
        long = long;
        within =
            subst (All (IsWithin start_date end_date)) same_grid
              (date_filter-IsWithin start_date end_date (sort_times idx));
      }

  plan_export-Gives :
      (symbols : List Text) (start_date end_date : Option ℕ)
      → Gives
          (IsPlan start_date end_date)
          (plan_export pandas cache data_root min_rows symbols start_date end_date)
  unfolding plan_export
  plan_export-Gives symbols start_date end_date =
      Gives-bind _ (merge pandas cache data_root min_rows symbols _) _ λ m e.
        elim (Option-cases (m.common_index)) [
          | inl f ↦ rw f tt
          | inr (idx, f) ↦
              let c = rw f at (Gives-ok _ (merge-Covers symbols _ refl) e) in
              rw f (
                Gives-bind _ (enough min_rows idx) _ λ common g.
                  let (p, _) = enough-ok idx common g in
                  Gives-bind _
                    (enough min_rows (date_filter start_date end_date (sort_times common))) _
                    λ grid k. elim (Bool-cases (length grid == 0)) [
                      | inl z ↦ rw z tt
                      | inr n ↦
                          rw n
                            (grid-IsPlan symbols start_date end_date idx grid (m.held) c (rw p k))
                    ])
        ]

  -- An export that does not fail takes only times inside the window of dates at which the files of every symbol that
  -- it writes have a bar and a forecast of either horizon, and it takes the smallest number of
  -- rows at least.
  pub plan_export-IsPlan :
      (symbols : List Text) (start_date end_date : Option ℕ) (plan : Plan F)
      → plan_export pandas cache data_root min_rows symbols start_date end_date ≡ ok plan
      → IsPlan start_date end_date plan
  plan_export-IsPlan symbols start_date end_date plan e =
      Gives-ok (IsPlan start_date end_date) (plan_export-Gives symbols start_date end_date) e
