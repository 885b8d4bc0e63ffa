-- ===== src/Broker.antt =====
-- core/broker.py: the one way to write an order. An executor is a call on the order; the default
-- one, `PaperExecutor`, records it. A live broker is built only behind two gates.
pub mod Submit
pub mod Trace
pub mod Paper
use keel_trader.Base.{
  Bool, true, false, not, ◌&&◌, ◌||◌, Option, none, some, List, [], ◌∷◌, ◌++◌, if◌then◌else◌, ltb,
  length, or_default, same,
}
use keel_trader.Base.Text.{Text, codes, strip, lower, text_eq}
use keel_trader.Double.{Double, lt}
use keel_trader.Config.{Env, among, live_trading_enabled}
use keel_trader.Outcome.{Result, ok, err, order_rejected, live_forbidden}
use keel_trader.Singleton.State.{Order, World, Action, Done, pure, raise, ◌>>=◌, ◌>>◌}
use keel_trader.Singleton.Buys.{record_buy_price}
use keel_trader.Singleton.Guard.{no_args, guard_sell}

abbrev pub buy : Text
buy = codes "buy"

abbrev pub sell : Text
sell = codes "sell"

abbrev pub valid_sides : List Text
valid_sides = buy ∷ sell ∷ []

abbrev pub Executor : Type 0 → Type 0
Executor F = Order F → Action F Done

-- `PaperExecutor.execute`
unfoldable pub paper_execute : {F : Type 0} → Executor F
paper_execute order w = (ok tt, record w { filled = w.filled ++ (order ∷ []) })

-- What a `Broker` keeps beside its executor.
pub record Broker : Type 0 where
  pub paper : Bool
  pub allow_live : Bool

-- `Broker.__post_init__`
unfoldable pub make_broker : {F : Type 0} → Option Bool → Bool → Action F Broker
make_broker paper allow_live w =
    let is_paper = or_default paper (w.paper) in
    if not is_paper && (not allow_live || not (live_trading_enabled (w.env)))
    then (err live_forbidden, w)
    else (ok (record { paper = is_paper; allow_live = allow_live }), w)

module _ {F : Type 0} ⦃d : Double F⦄ where
  -- The checks of the fields: anything but a known side, a symbol and two positive numbers.
  abbrev pub is_malformed : (symbol side_norm : Text) → (qty price : F) → Bool
  is_malformed symbol side_norm qty price =
      not (among side_norm valid_sides)
      || ltb (length symbol) 1
      || not (lt (d.nought) qty)
      || not (lt (d.nought) price)

  abbrev pub order : Text → Text → F → F → Order F
  order symbol side qty price = record { symbol = symbol; side = side; qty = qty; price = price }

  -- The order past the checks: the guard, the executor, and the memory of a purchase.
  unfoldable pub guard_and_execute : Executor F → Order F → Action F (Order F)
  guard_and_execute execute o w =
      (do
        guard_sell no_args (o.symbol) (o.side) (o.price)
        execute o
        if same (o.side) buy then record_buy_price (o.symbol) (o.price) else pure tt
        pure o)
        w

  -- `Broker.submit_order`
  unfoldable pub submit_order :
      Executor F → (symbol side : Text) → (qty price : F) → Action F (Order F)
  submit_order execute symbol side qty price =
      let side_norm = lower (strip side) in
      if is_malformed symbol side_norm qty price
      then raise order_rejected
      else guard_and_execute execute (order symbol side_norm qty price)
