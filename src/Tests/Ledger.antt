-- ===== src/Tests/Ledger.antt =====
-- A purchase of BTC at 100, a sale too low, and the same sale once the purchase is forgotten.
use keel_trader.Base.{◌≡◌, refl, none, List, [], ◌∷◌}
use keel_trader.Base.Text.{codes}
use keel_trader.Double.Fixed.{Fixed, fixed_double, Fixed-IsOrdered, Fixed-IsShift}
use keel_trader.Config.{env_truthy}
use keel_trader.Outcome.{ok, err, runtime_error}
use keel_trader.Account.Name.{normalize_account_name}
use keel_trader.Singleton.Guard.{no_args, tolerance, base_bps, floor_price}
use keel_trader.Singleton.Ledger.{Event, buys_at, asks, passes, answers, ledger_answers}
use keel_trader.Singleton.Match.{window}
use keel_trader.Singleton.Refines.{answers-ledger_answers}
use keel_trader.Broker.{sell}
use keel_trader.Tests.Samples.{world, whole, btc}

abbrev days : List (Event Fixed)
days =
    buys_at btc (whole 100)
    ∷ asks no_args (codes "btc") sell (whole 96)
    ∷ passes (whole 200_000)
    ∷ asks no_args (codes "btc") sell (whole 96)
    ∷ passes (whole 300_000)
    ∷ asks no_args (codes "btc") sell (whole 96)
    ∷ []

-- The ledger's answers.
days-refused :
    ledger_answers none (window world) days (record { now = whole 1000; bought = λ k. none })
    ≡ ok tt ∷ err runtime_error ∷ ok tt ∷ err runtime_error ∷ ok tt ∷ ok tt ∷ []
unfolding ledger_answers tolerance base_bps floor_price
days-refused = refl

answers-ledger_answers_example :
    answers days world
    ≡ ledger_answers none (window world) days (record { now = whole 1000; bought = λ k. none })
unfolding normalize_account_name env_truthy
answers-ledger_answers_example =
    answers-ledger_answers Fixed-IsOrdered Fixed-IsShift (codes "alpaca_live_writer") world refl
      refl days refl ((refl, refl, (refl, refl, tt))) refl
