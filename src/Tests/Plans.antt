-- ===== src/Tests/Plans.antt =====
-- The strategy on three signals with two picks, and a step of the paper runner with its decision.
use keel_trader.Base.{
  ◌≡◌, ◌≤◌, refl, Option, some, List, [], ◌∷◌, All, length, if◌then◌else◌, is_some,
}
use keel_trader.Base.Int.{pos, pos_part}
use keel_trader.Base.Dict.{Dict, lookup}
use keel_trader.Base.Text.{Text, codes, text_eq}
use keel_trader.Double.Fixed.{Fixed, num, fixed_double, Fixed-IsOrdered}
use keel_trader.Outcome.{ok}
use keel_trader.Singleton.Buys.{record_buy_price, remember_buy, load_buys, save_buys, prune_buys}
use keel_trader.Singleton.Guard.{guard_sell, check_memory, check_record}
use keel_trader.Config.{env_truthy}
use keel_trader.Account.Name.{normalize_account_name}
use keel_trader.Strategy.{
  SymbolSignal, Position, StrategyConfig, decide, inverse_vol_weights, raw_weights, size_picks,
  allocate, select_picks, filter_by_conviction,
}
use keel_trader.Strategy.Decide.{IsDecided, decide-IsDecided, decide_returns}
use keel_trader.Runner.{Desk, step, rebalance, exit_one, enter_one, targets_of}
use keel_trader.Runner.Held.{step-held}
use keel_trader.Double.Defs.{sum}
use keel_trader.Tests.Samples.{whole, btc, world}

abbrev eth : Text
eth = codes "ETH"

abbrev pub plan : StrategyConfig Fixed
plan = record {
  conviction_threshold = whole 0;
  max_positions = pos 2;
  gross_exposure = whole 1;
  max_position_weight = num (pos 34_000_000);
  min_volatility = num (pos 10_000);
}

abbrev signals : List (SymbolSignal Fixed)
signals =
    record { symbol = btc; score = whole 1; volatility = num (pos 2_000_000) }
    ∷ record { symbol = eth; score = whole 2; volatility = num (pos 4_000_000) }
    ∷ record { symbol = codes "SOL"; score = whole 0; volatility = num (pos 4_000_000) }
    ∷ []

-- Both picks are at the cap.
abbrev decided : List (Position Fixed)
decided =
    record { symbol = eth; weight = num (pos 34_000_000) }
    ∷ record { symbol = btc; weight = num (pos 34_000_000) }
    ∷ []

is_decided : decide plan signals ≡ ok decided
unfolding decide inverse_vol_weights raw_weights size_picks allocate select_picks
    filter_by_conviction sum
is_decided = refl

decide-IsDecided_example :
    All (IsDecided plan signals) decided × (length decided ≤ pos_part (plan.max_positions))
decide-IsDecided_example = decide-IsDecided plan signals is_decided

decide_returns_example : (ps : List (Position Fixed)) × (decide plan signals ≡ ok ps)
decide_returns_example = decide_returns Fixed-IsOrdered plan signals refl

abbrev raw : Dict Text Fixed
raw = (btc, whole 50) ∷ (eth, whole 25) ∷ []

abbrev desk : Desk Fixed
desk = record { world = world; held = (codes "SOL", whole 1) ∷ []; submitted = [] }

abbrev prices : Text → Option Fixed
prices name = some (whole 100)

step-held_example :
    lookup btc ((step prices plan signals desk).1.held)
    ≡ (if is_some (prices btc) then lookup btc (targets_of decided) else lookup btc (desk.held))
unfolding step rebalance exit_one enter_one decide inverse_vol_weights raw_weights size_picks
    allocate select_picks filter_by_conviction sum record_buy_price remember_buy load_buys save_buys
    prune_buys normalize_account_name guard_sell env_truthy check_memory check_record
step-held_example = step-held prices btc plan signals desk is_decided refl
