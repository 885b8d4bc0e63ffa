-- ===== src/Tests/Samples.antt =====
-- A world with an empty memory, and its neighbours.
use keel_trader.Base.{ℕ, true, Option, none, [], ◌∷◌, ◌*◌}
use keel_trader.Base.Text.{Text, codes}
use keel_trader.Base.Int.{pos}
use keel_trader.Double.Fixed.{Fixed, num, fixed_double}
use keel_trader.Account.Lock.{Locks, Proc, Os}
use keel_trader.Singleton.State.{World, absent, buys, Buys, entry, Field}

abbrev pub no_env : Text → Option Text
no_env name = none

abbrev pub proc : ℕ → Proc
proc p = record { pid = p; next_handle = 0; objects = λ _. none; held = λ _. none }

abbrev pub quiet : Os
quiet = record { flocks = λ _. none; content = λ _. none }

abbrev pub alone : Locks
alone = record { proc = proc 7; os = quiet }

-- A whole number as a price or a time.
abbrev pub whole : ℕ → Fixed
whole n = num (pos (n * 100_000_000))

abbrev pub world : World Fixed
world = record {
  env = no_env;
  paper = true;
  now = whole 1000;
  state_dir = codes "/s";
  memory = λ _. absent;
  can_quarantine = true;
  quarantined = [];
  state = none;
  locks = alone;
  markers = [];
  filled = [];
}

abbrev pub btc : Text
btc = codes "BTC"

-- The memory holds a purchase of BTC at 100.
abbrev pub bought_file : Buys Fixed
bought_file = (btc, entry (Field.num (whole 900)) (Field.num (whole 100))) ∷ []

abbrev pub holding : World Fixed
holding = record world { memory = λ _. buys bought_file }
