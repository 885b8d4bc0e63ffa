-- ===== src/Singleton/Frame.antt =====
-- core/alpaca_singleton.py: the parts of the world that the guard and the buy memory do not own.
use keel_trader.Base.{◌≡◌, ◌⊎◌, Option, arith}
use keel_trader.Base.Text.{Text}
use keel_trader.Double.{Double}
use keel_trader.Outcome.{ok, err, value_error}
use keel_trader.Singleton.State.{World, write_marker, deprecated_kwargs, Entry}
use keel_trader.Singleton.Buys.{load_buys, remember_buy, record_buy_price}
use keel_trader.Singleton.Guard.{GuardArgs, guard_sell, check_memory, check_record}

module _ {F : Type 0} where
  -- The parts of the world that are not the guard's: the orders, the locks, the singleton, the
  -- clock, the flags.
  pub record Keeps (w w' : World F) : Type 0 where
    pub filled_lem : w'.filled ≡ w.filled
    pub locks_lem : w'.locks ≡ w.locks
    pub state_lem : w'.state ≡ w.state
    pub now_lem : w'.now ≡ w.now
    pub env_lem : w'.env ≡ w.env
    pub paper_lem : w'.paper ≡ w.paper

  Keeps-refl : (w : World F) → Keeps w w
  Keeps-refl w = ground arith

module _ {F : Type 0} ⦃d : Double F⦄ where
  load_buys-Keeps : (safe : Text) (w : World F) → Keeps w (load_buys safe w).1
  unfolding load_buys
  load_buys-Keeps safe w = ground arith

  pub check_record-Keeps :
      (tol price : F) (o : Option (Entry F)) (w : World F) → Keeps w (check_record tol price o w).1
  unfolding check_record
  check_record-Keeps tol price o w = ground arith

  pub check_record-memory :
      (tol price : F) (o : Option (Entry F)) (w : World F)
      → (check_record tol price o w).1.memory ≡ w.memory
  unfolding check_record
  check_record-memory tol price o w = ground arith

  check_memory-Keeps :
      (args : GuardArgs F) (symbol : Text) (price : F) (w : World F)
      → Keeps w (check_memory args symbol price w).1
  unfolding check_memory
  check_memory-Keeps args symbol price w = grind (arith, check_record-Keeps)

  pub guard_sell-Keeps :
      (args : GuardArgs F) (symbol side : Text) (price : F) (w : World F)
      → Keeps w (guard_sell args symbol side price w).1
  unfolding guard_sell
  guard_sell-Keeps args symbol side price w = ground (
    arith,
    check_memory-Keeps args symbol price w,
    check_memory-Keeps args symbol price (write_marker deprecated_kwargs w).1,
  )

  pub record_buy_price-Keeps :
      (symbol : Text) (p : F) (w : World F) → Keeps w (record_buy_price symbol p w).1
  unfolding record_buy_price remember_buy
  record_buy_price-Keeps symbol p w = ground arith

  -- The only exception of `record_buy_price` is a `ValueError`.
  pub record_buy_price-err :
      (symbol : Text) (p : F) (w : World F)
      → ((record_buy_price symbol p w).0 ≡ ok tt)
        ⊎ ((record_buy_price symbol p w).0 ≡ err value_error)
  unfolding record_buy_price remember_buy load_buys
  record_buy_price-err symbol p w = ground arith
