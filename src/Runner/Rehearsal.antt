-- ===== src/Runner/Rehearsal.antt =====
-- core/paper_runner.py: the orders of a step, and what a step leaves of the process.
use keel_trader.Base.{◌≡◌, sym, List, [], ◌∷◌, ◌++◌}
use keel_trader.Base.Dict.{Dict}
use keel_trader.Base.Text.{Text, text_eq}
use keel_trader.Double.{Double}
use keel_trader.Outcome.{Error, ok, err}
use keel_trader.Singleton.State.{World}
use keel_trader.Singleton.Buys.{record_buy_price}
use keel_trader.Singleton.Guard.{no_args, guard_sell}
use keel_trader.Singleton.Frame.{Keeps}
use keel_trader.Broker.{buy, sell}
use keel_trader.Runner.{PaperOrder, Desk}

module _ {F : Type 0} ⦃d : Double F⦄ where
  abbrev pub sale : (sym : Text) → (price : F) → PaperOrder F
  sale sym price = record { symbol = sym; side = sell; price = price; target_weight = d.nought }

  abbrev pub purchase : (sym : Text) → (price weight : F) → PaperOrder F
  purchase sym price weight = record {
    symbol = sym;
    side = buy;
    price = price;
    target_weight = weight;
  }

  -- The calls of the guard and of the buy memory that lead from one world to another, each in the
  -- world that the one before has left, with the orders that were submitted on the way: a sale
  -- after a call of the guard that let it through, a purchase after a call that recorded it, and
  -- nothing after a call that raised.
  pub data Trail : World F → List (PaperOrder F) → World F → Type 0 where
    stop : (u : World F) → Trail u [] u
    sells :
        (u : World F) (sym : Text) (price : F) (orders : List (PaperOrder F)) (v : World F)
        → (guard_sell no_args sym sell price u).0 ≡ ok tt
        → Trail (guard_sell no_args sym sell price u).1 orders v
        → Trail u (sale sym price ∷ orders) v
    purchases :
        (u : World F) (sym : Text) (price weight : F) (orders : List (PaperOrder F)) (v : World F)
        → (record_buy_price sym price u).0 ≡ ok tt
        → Trail (record_buy_price sym price u).1 orders v
        → Trail u (purchase sym price weight ∷ orders) v
    refused_sale :
        (u : World F) (sym : Text) (price : F) (e : Error) (orders : List (PaperOrder F))
        (v : World F)
        → (guard_sell no_args sym sell price u).0 ≡ err e
        → Trail (guard_sell no_args sym sell price u).1 orders v
        → Trail u orders v
    refused_purchase :
        (u : World F) (sym : Text) (price : F) (e : Error) (orders : List (PaperOrder F))
        (v : World F)
        → (record_buy_price sym price u).0 ≡ err e
        → Trail (record_buy_price sym price u).1 orders v
        → Trail u orders v

  -- What an action leaves: the orders that it has submitted, with the calls that lead to its world,
  -- and the rest of the process as it was.
  abbrev pub Leaves : Desk F → Desk F → Type 0
  Leaves k k' =
      ((orders : List (PaperOrder F)) × (k'.submitted ≡ k.submitted ++ orders)
        × Trail (k.world) orders (k'.world))
      × Keeps (k.world) (k'.world)
