-- ===== src/Singleton/Bypass.antt =====
-- core/alpaca_singleton.py: the guard where an override is set.
use keel_trader.Base.{◌≡◌, true, false, [], ◌∷◌, ◌++◌, arith, Bool-cases, inl, inr, if◌then◌else◌}
use keel_trader.Base.Text.{Text}
use keel_trader.Double.{Double, lt}
use keel_trader.Outcome.{ok}
use keel_trader.Singleton.State.{World, deprecated_kwargs, guard_override}
use keel_trader.Singleton.Buys.{is_unpriced}
use keel_trader.Singleton.Guard.{
  GuardArgs, is_sell, any_env_flag, guard_override_vars, guard_sell, tolerance, floor_price,
}
use keel_trader.Singleton.Floor.{Remembers, guard_sell-floor}

module _ {F : Type 0} ⦃d : Double F⦄ where
  -- If the guard lets a sale through below the floor under a purchase on record, an override is
  -- set, and the last line that the guard has written says so; nothing else has changed but the
  -- log.
  pub guard_sell_bypass :
      (args : GuardArgs F) (symbol side : Text) (price p : F) (w : World F)
      → is_sell side ≡ true
      → is_unpriced symbol price ≡ false
      → Remembers w symbol p
      → lt price (floor_price p (tolerance (w.state) args)) ≡ true
      → (guard_sell args symbol side price w).0 ≡ ok tt
      → (any_env_flag guard_override_vars (w.env) ≡ true)
        × ((guard_sell args symbol side price w).1 ≡ record w {
          markers =
              (if args.deprecated then w.markers ++ (deprecated_kwargs ∷ []) else w.markers)
              ++ (guard_override ∷ []);
        })
  unfolding guard_sell
  guard_sell_bypass args symbol side price p w sells priced m below passed =
      elim (Bool-cases (any_env_flag guard_override_vars (w.env))) [
        | inl set ↦ (set, ground arith)
        | inr unset ↦
            absurd
              (ground (arith, guard_sell-floor args symbol side price p w sells priced unset m))
      ]
