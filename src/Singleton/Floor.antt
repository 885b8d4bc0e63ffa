-- ===== src/Singleton/Floor.antt =====
-- core/alpaca_singleton.py: what the guard decides on a purchase on record.
use keel_trader.Base.{◌≡◌, true, false, some, arith, if◌then◌else◌}
use keel_trader.Base.Text.{Text, upper, text_eq}
use keel_trader.Base.Dict.{lookup}
use keel_trader.Double.{Double, le, lt}
use keel_trader.Outcome.{ok, err, runtime_error}
use keel_trader.Account.Name.{normalize_account_name}
use keel_trader.Singleton.State.{
  Field, num, entry, Buys, buys, World, current_account_name, current_buy_memory_seconds,
}
use keel_trader.Singleton.Buys.{prune_buys, is_unpriced}
use keel_trader.Singleton.Guard.{
  GuardArgs, is_sell, guard_override_vars, any_env_flag, guard_sell, tolerance, floor_price,
  check_memory, check_record,
}

module _ {F : Type 0} ⦃d : Double F⦄ where
  -- The memory of the account holds a purchase of the symbol at the price `p` that is still kept.
  pub record Remembers (w : World F) (symbol : Text) (p : F) : Type 0 where
    pub safe : Text
    pub stored : Buys F
    pub kept : Buys F
    pub ts : Field F
    pub is_account : normalize_account_name (current_account_name w) ≡ some safe
    pub is_stored : w.memory safe ≡ buys stored
    pub is_kept : prune_buys (w.now) (current_buy_memory_seconds w) stored ≡ some kept
    pub is_record : lookup (upper symbol) kept ≡ some (entry ts (num p))
    pub is_positive : le p (d.nought) ≡ false

  -- With a purchase on record and no override, a sale is refused exactly when its price lies
  -- below the floor under that purchase.
  pub guard_sell-floor :
      (args : GuardArgs F) (symbol side : Text) (price p : F) (w : World F)
      → is_sell side ≡ true
      → is_unpriced symbol price ≡ false
      → any_env_flag guard_override_vars (w.env) ≡ false
      → Remembers w symbol p
      → (guard_sell args symbol side price w).0
        ≡ (if lt price (floor_price p (tolerance (w.state) args)) then err runtime_error else ok tt)
  unfolding guard_sell check_memory check_record
  guard_sell-floor args symbol side price p w sells priced strict m =
      ground (arith, m.is_account, m.is_stored, m.is_kept, m.is_record, m.is_positive)
