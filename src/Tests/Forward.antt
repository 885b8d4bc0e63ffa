-- ===== src/Tests/Forward.antt =====
-- One step of the paper trader, with an engine that fills at the target.
use keel_trader.Base.{◌+◌, ◌*◌, [], ◌∷◌}
use keel_trader.Double.Fixed.{Fixed, fixed_double}
use keel_trader.Kraken.{Bar, TraderConfig, Trader, FillPrice, ScoreFn}
use keel_trader.Kraken.Loop.{Feed}
use keel_trader.Tests.Samples.{whole, btc, world}
use keel_trader.Tests.Plans.{plan}

abbrev bar : Bar Fixed
bar = record {
  «open» = whole 99;
  high = whole 101;
  low = whole 98;
  close = whole 100;
  volume = whole 5;
  ts_ms = 1;
}

abbrev engine : FillPrice Fixed
engine b target buffer slippage is_buy = target

abbrev score : ScoreFn Fixed
score name bars = (whole 1, whole 1)

abbrev config : TraderConfig Fixed
config = record {
  strategy_cfg = plan;
  equity = whole 10000;
  slippage_bps = whole 10;
  fill_buffer_bps = whole 5;
  fee_rate = whole 0;
  history = 128;
}

abbrev trader : Trader Fixed
trader = record {
  world = world;
  bars = [];
  held = [];
  realized_pnl = whole 0;
  fills = [];
  ledger = [];
}

abbrev feed : Feed Fixed
feed = record { prices = λ tick. (btc, bar) ∷ []; time = λ tick. whole (1_000 + tick * 3_600) }
