-- ===== src/Tests/Modes.antt =====
-- A live broker, in an environment with both flags set.
use keel_trader.Base.{◌≡◌, refl, true, false, some, any, if◌then◌else◌, same}
use keel_trader.Base.Text.{codes, text_eq}
use keel_trader.Double.Fixed.{Fixed}
use keel_trader.Config.{
  Env, keel_paper, env_truthy, env_truthy_is_live, first_set, resolve_paper, live_trading_enabled,
  live_enable_env_vars,
}
use keel_trader.Singleton.State.{World}
use keel_trader.Broker.{make_broker}
use keel_trader.Broker.Paper.{SaysLive, make_broker_live}
use keel_trader.Tests.Samples.{world}

abbrev live_env : Env
live_env name = if same name keel_paper then some (codes " No") else some (codes "1")

abbrev live_world : World Fixed
live_world = record world { env = live_env; paper = false }

make_broker_live_example :
    (true ≡ true)
    × (any (λ n. env_truthy (live_world.env n)) live_enable_env_vars ≡ true)
    × SaysLive (live_world.env)
unfolding make_broker live_trading_enabled resolve_paper first_set env_truthy_is_live env_truthy
make_broker_live_example =
    make_broker_live true live_world {b = record { paper = false; allow_live = true }} refl refl
      refl
