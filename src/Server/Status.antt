-- ===== src/Server/Status.antt =====
-- core/trading_server.py: what a status code says about the order.
use keel_trader.Base.{ℕ, ◌≡◌, ◌⊎◌, [], ◌∷◌, ◌++◌}
use keel_trader.Base.Text.{Text, text_eq}
use keel_trader.Double.{Double}
use keel_trader.Outcome.{Result, ok, err}
use keel_trader.Singleton.State.{Order, World}
use keel_trader.Broker.Submit.{Approved, IsWellFormed}

module _ {F : Type 0} ⦃d : Double F⦄ where
  -- What a caller may conclude: 200 means that one order was approved and executed, 404, 400 and
  -- 409 mean that none was.
  abbrev pub Reports : World F → Result ℕ × World F → Type 0
  Reports w (ok code, w') =
      ((code ≡ 200)
        × (o : Order F) × (w'.filled ≡ w.filled ++ (o ∷ []))
        × Approved w o
        × IsWellFormed o)
      ⊎ (((code ≡ 404) ⊎ (code ≡ 400) ⊎ (code ≡ 409)) × (w'.filled ≡ w.filled))
  Reports w (err e, w') = Unit

  -- The same of a known order.
  abbrev ReportsOf : World F → Order F → Result ℕ × World F → Type 0
  ReportsOf w o (ok code, w') =
      ((code ≡ 200) × (w'.filled ≡ w.filled ++ (o ∷ [])) × Approved w o × IsWellFormed o)
      ⊎ (((code ≡ 404) ⊎ (code ≡ 400) ⊎ (code ≡ 409)) × (w'.filled ≡ w.filled))
  ReportsOf w o (err e, w') = Unit
