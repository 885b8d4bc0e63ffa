-- ===== src/Tests/Orders.antt =====
-- Orders at the default account: a purchase of BTC at 100, and sales after it.
use keel_trader.Base.{◌≡◌, refl, true, some, [], ◌∷◌, All}
use keel_trader.Base.Text.{codes}
use keel_trader.Double.Fixed.{Fixed, fixed_double}
use keel_trader.Config.{env_truthy}
use keel_trader.Outcome.{err, runtime_error}
use keel_trader.Account.Name.{normalize_account_name}
use keel_trader.Singleton.State.{World, Field, guard_override}
use keel_trader.Singleton.Buys.{load_buys, save_buys, prune_buys, record_buy_price, remember_buy}
use keel_trader.Singleton.Guard.{
  no_args, base_bps, tolerance, floor_price, any_env_flag, guard_override_vars, guard_sell,
}
use keel_trader.Singleton.Floor.{Remembers}
use keel_trader.Singleton.Memory.{guard_sell-record_buy_price}
use keel_trader.Singleton.Bypass.{guard_sell_bypass}
use keel_trader.Broker.{paper_execute, guard_and_execute, submit_order, buy, sell}
use keel_trader.Broker.Submit.{AllOrNothing, submit_order-sell}
use keel_trader.Broker.Trace.{
  Reach, here, next, submits, Passed, Reach-Passed, submit_order_no_spiral,
}
use keel_trader.Server.{Body, json, fields, amount}
use keel_trader.Tests.Samples.{world, holding, whole, btc, bought_file}

-- A world with the override set.
abbrev overridden : World Fixed
overridden = record holding { env = λ name. some (codes "1") }

overridden-Remembers : Remembers overridden btc (whole 100)
unfolding normalize_account_name prune_buys
overridden-Remembers = record {
  safe = codes "alpaca_live_writer";
  stored = bought_file;
  kept = bought_file;
  ts = Field.num (whole 900);
  is_account = refl;
  is_stored = refl;
  is_kept = refl;
  is_record = refl;
  is_positive = refl;
}

guard_sell_bypass_example :
    (any_env_flag guard_override_vars (overridden.env) ≡ true)
    × ((guard_sell no_args btc sell (whole 96) overridden).1
        ≡ record overridden { markers = guard_override ∷ [] })
unfolding env_truthy guard_sell tolerance base_bps floor_price
guard_sell_bypass_example =
    guard_sell_bypass no_args btc sell (whole 96) (whole 100) overridden refl refl
      overridden-Remembers refl refl

-- The world after the purchase was recorded, some time later.
abbrev later : World Fixed
later = record (record_buy_price btc (whole 100) world).1 { now = whole 5000 }

guard_sell-record_buy_price_example :
    (guard_sell no_args (codes "btc") sell (whole 96) later).0 ≡ err runtime_error
unfolding record_buy_price remember_buy load_buys save_buys prune_buys normalize_account_name
    env_truthy tolerance base_bps floor_price
guard_sell-record_buy_price_example =
    guard_sell-record_buy_price no_args btc (codes "btc") sell (whole 100) (whole 96) world later
      refl refl refl refl refl refl refl refl refl refl

-- The world after the purchase through the broker, some time later.
abbrev after_purchase : World Fixed
after_purchase = record (submit_order paper_execute btc buy (whole 1) (whole 100) world).1 {
  now = whole 5000;
}

submit_order_no_spiral_example :
    let (r, v) =
      submit_order paper_execute (codes "btc") sell (whole 1) (whole 96) after_purchase in
    (r ≡ err runtime_error) × (v.filled ≡ after_purchase.filled)
unfolding submit_order guard_and_execute guard_sell paper_execute record_buy_price remember_buy
    load_buys save_buys prune_buys normalize_account_name env_truthy tolerance base_bps floor_price
submit_order_no_spiral_example =
    submit_order_no_spiral btc (codes "btc") (whole 1) (whole 100) (whole 1) (whole 96) world
      after_purchase refl refl refl refl refl refl refl refl refl refl refl

-- The purchase alone.
abbrev run : Reach world (submit_order paper_execute btc buy (whole 1) (whole 100) world).1
run = next here (submits btc buy (whole 1) (whole 100) refl)

Reach-Passed_example :
    All (Passed run) ((submit_order paper_execute btc buy (whole 1) (whole 100) world).1.filled)
Reach-Passed_example = Reach-Passed run refl

submit_order-sell_example :
    AllOrNothing holding
      (submit_order paper_execute btc (codes " SELL") (whole 1) (whole 99) holding)
submit_order-sell_example = submit_order-sell btc (codes " SELL") (whole 1) (whole 99) holding refl

abbrev body : Body Fixed
body = json (fields (some btc) (some buy) (amount (whole 1)) (amount (whole 100)))
