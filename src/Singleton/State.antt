-- ===== src/Singleton/State.antt =====
-- core/alpaca_singleton.py: what the calls of one process read and write, and how they are chained.
-- `now` is the clock, which stands still during a call. The buy memory of each account is a file,
-- with the states that `_load_buys` tells apart; a record's time of writing in words (`iso`) is
-- left out, since nothing reads it, and so is the order of the keys in the file. The threads of
-- the process and other processes wait for `_buy_memory_guard`, so each call is one step.
use keel_trader.Base.{ℕ, ◌*◌, Bool, Option, none, some, List, [], ◌∷◌, ◌++◌}
use keel_trader.Base.Text.{Text, codes}
use keel_trader.Base.Dict.{Dict}
use keel_trader.Double.{Double}
use keel_trader.Config.{Env}
use keel_trader.Outcome.{Error, Result, ok, err}
use keel_trader.Account.Lock.{Locks}

-- A field of a JSON object: not there, a value that `float(…)` turns into a number, or one on
-- which `float(…)` raises.
pub data Field (F : Type 0) : Type 0 where
  missing junk : Field F
  num : F → Field F

-- A value of the buy memory: no object, or an object with its `ts` and `price`.
pub data Entry (F : Type 0) : Type 0 where
  not_dict : Entry F
  entry : (ts price : Field F) → Entry F

abbrev pub Buys : Type 0 → Type 0
Buys F = Dict Text (Entry F)

-- The file of the buy memory as `_load_buys` finds it.
pub data BuyFile (F : Type 0) : Type 0 where
  absent unreadable corrupt not_object : BuyFile F
  buys : Buys F → BuyFile F

-- The lines on stderr.
pub data Marker : Type 0 where
  paper_mode singleton_override lock_acquired refusing_to_start : Marker
  unreadable_memory corrupt_memory invalid_memory quarantine_failed : Marker
  deprecated_kwargs guard_override refusing_sell : Marker

pub record SingletonState (F : Type 0) : Type 0 where
  pub account_name : Text
  -- the handle of the lock object, if there is one
  pub lock : Option ℕ
  pub death_spiral_guard_enabled : Bool
  pub death_spiral_tolerance_bps : F
  pub atr_tolerance_mult : F
  pub buy_memory_seconds : ℕ

-- `core.broker.Order`; the side is normalised.
pub record Order (F : Type 0) : Type 0 where
  pub symbol : Text
  pub side : Text
  pub qty : F
  pub price : F

pub record World (F : Type 0) : Type 0 where
  pub env : Env
  -- `core.config.PAPER`
  pub paper : Bool
  pub now : F
  pub state_dir : Text
  -- the buy memory by normalised account name
  pub memory : Text → BuyFile F
  -- whether a bad file can be moved away, and those that were
  pub can_quarantine : Bool
  pub quarantined : List (Text × BuyFile F)
  -- `_STATE`
  pub state : Option (SingletonState F)
  pub locks : Locks
  pub markers : List Marker
  -- what the executor has been given, the latest last
  pub filled : List (Order F)

-- A call: what was written stays written when it raises.
abbrev pub Action : Type 0 → Type 0 → Type 0
Action F A = World F → Result A × World F

abbrev pub Done : Type 0
Done = Unit

module _ {F A : Type 0} where
  abbrev pub pure : A → Action F A
  pure a w = (ok a, w)

  abbrev pub raise : Error → Action F A
  raise e w = (err e, w)

  abbrev pub gets : (World F → A) → Action F A
  gets f w = (ok (f w), w)

  abbrev pub or_raise : Option A → Error → Action F A
  or_raise (some a) e w = (ok a, w)
  or_raise none e w = (err e, w)

infixl 5 ◌>>=◌ ◌>>◌
abbrev pub ◌>>=◌ : {F A B : Type 0} → Action F A → (A → Action F B) → Action F B
◌>>=◌ m f w = let (r, w') = m w in elim r [ ok a ↦ f a w' | err e ↦ (err e, w') ]

abbrev pub ◌>>◌ : {F A B : Type 0} → Action F A → Action F B → Action F B
m >> k = m >>= λ _. k

-- `_write_marker`
abbrev pub write_marker : {F : Type 0} → Marker → Action F Done
write_marker m w = (ok tt, record w { markers = w.markers ++ (m ∷ []) })

abbrev pub default_account_name : Text
default_account_name = codes "alpaca_live_writer"

abbrev pub default_buy_memory_seconds : ℕ
default_buy_memory_seconds = 60 * 60 * 24 * 3

abbrev pub default_tolerance_bps : {F : Type 0} ⦃d : Double F⦄ → F
default_tolerance_bps ⦃d⦄ = d.lit 300 1

abbrev pub default_atr_tolerance_mult : {F : Type 0} ⦃d : Double F⦄ → F
default_atr_tolerance_mult ⦃d⦄ = d.lit 3 1

abbrev pub current_account_name : {F : Type 0} → World F → Text
current_account_name w = elim (w.state) [ none ↦ default_account_name | some s ↦ s.account_name ]

abbrev pub current_buy_memory_seconds : {F : Type 0} → World F → ℕ
current_buy_memory_seconds w = elim (w.state) [
  | none ↦ default_buy_memory_seconds
  | some s ↦ s.buy_memory_seconds
]
