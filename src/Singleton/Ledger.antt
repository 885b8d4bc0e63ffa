-- ===== src/Singleton/Ledger.antt =====
-- core/alpaca_singleton.py: the buy memory over any sequence of calls, and the ledger that it
-- implements. The ledger is a map from symbols in upper case to the time and the price of the last
-- purchase; it has no file and nothing is pruned from it.
use keel_trader.Base.{not, ◌||◌, Option, none, some, List, [], ◌∷◌, if◌then◌else◌, same}
use keel_trader.Base.Text.{Text, upper, text_eq}
use keel_trader.Double.{Double, le, lt}
use keel_trader.Outcome.{Result, ok, err, runtime_error}
use keel_trader.Singleton.State.{World, Done, SingletonState}
use keel_trader.Singleton.Buys.{is_unpriced, record_buy_price}
use keel_trader.Singleton.Guard.{GuardArgs, is_sell, guard_sell, tolerance, floor_price}

-- A call of the guard's two entry points, or the passing of time.
pub data Event (F : Type 0) : Type 0 where
  buys_at : (symbol : Text) → (price : F) → Event F
  asks : GuardArgs F → (symbol side : Text) → (price : F) → Event F
  passes : (now : F) → Event F

pub record Ledger (F : Type 0) : Type 0 where
  pub now : F
  pub bought : Text → Option (F × F)

module _ {F : Type 0} ⦃d : Double F⦄ where
  -- What the program does.
  abbrev pub perform : Event F → World F → Result Done × World F
  perform (buys_at symbol price) w = record_buy_price symbol price w
  perform (asks args symbol side price) w = guard_sell args symbol side price w
  perform (passes now) w = (ok tt, record w { now = now })

  -- The answers of the program, in turn.
  unfoldable pub answers : List (Event F) → World F → List (Result Done)
  answers [] w = []
  answers (e ∷ es) w = (perform e w).0 ∷ answers es ((perform e w).1)

module _ {F : Type 0} ⦃d : Double F⦄ (state : Option (SingletonState F)) (window : F) where
  -- A sale below the floor under a purchase within the window is refused.
  abbrev pub verdict : GuardArgs F → (price now : F) → Option (F × F) → Result Done
  verdict args price now none = ok tt
  verdict args price now (some (t, p)) =
      if le (d.sub now t) window
      then (if lt price (floor_price p (tolerance state args)) then err runtime_error else ok tt)
      else ok tt

  abbrev pub ledger_act : Event F → Ledger F → Result Done × Ledger F
  ledger_act (buys_at symbol price) l = (
    ok tt,
    if is_unpriced symbol price then l else record l {
      bought = λ k. if same k (upper symbol) then some (l.now, price) else l.bought k;
    },
  )
  ledger_act (asks args symbol side price) l = (
    if not (is_sell side) || is_unpriced symbol price
        then ok tt
        else verdict args price (l.now) (l.bought (upper symbol)),
    l,
  )
  ledger_act (passes now) l = (ok tt, record l { now = now })

  unfoldable pub ledger_answers : List (Event F) → Ledger F → List (Result Done)
  ledger_answers [] l = []
  ledger_answers (e ∷ es) l = (ledger_act e l).0 ∷ ledger_answers es ((ledger_act e l).1)
