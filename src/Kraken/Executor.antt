-- ===== src/Kraken/Executor.antt =====
-- core/kraken_executor.py: the executor of live orders, past the gate of its construction. What
-- the exchange does with an order, `create_order`, is a parameter; what has been sent is a list.
use keel_trader.Base.{
  Bool, ◌||◌, Option, none, some, List, [], ◌∷◌, ◌++◌, if◌then◌else◌, or_default, length, ◌==◌,
}
use keel_trader.Base.Text.{Text, codes}
use keel_trader.Config.{Env}
use keel_trader.Outcome.{Result, ok, err, live_forbidden}
use keel_trader.Singleton.State.{Order, Done, World}
use keel_trader.Kraken.{make_kraken_executor}

abbrev pub kraken_key_env : Text
kraken_key_env = codes "KRAKEN_API_KEY"

abbrev pub kraken_secret_env : Text
kraken_secret_env = codes "KRAKEN_API_SECRET"

-- The client with the keys that it was made with, and the orders sent, each with those keys.
pub record KrakenExecutor (F : Type 0) : Type 0 where
  pub client : Option (Text × Text)
  pub sent : List (Order F × (Text × Text))

-- `os.environ.get(name, "")`
abbrev pub get_env : Env → Text → Text
get_env env name = or_default (env name) []

module _ {F : Type 0} where
  -- `_ccxt_client`, which keeps the client that it has made.
  unfoldable pub ccxt_client : Env → KrakenExecutor F → Result (Text × Text) × KrakenExecutor F
  ccxt_client env x = elim (x.client) as (λ _. Result (Text × Text) × KrakenExecutor F) [
    | some keys ↦ (ok keys, x)
    | none ↦
        let key = get_env env kraken_key_env in
        let secret = get_env env kraken_secret_env in
        if length key == 0 || length secret == 0
        then (err live_forbidden, x)
        else (ok (key, secret), record x { client = some (key, secret) })
  ]

  -- `execute`; the order has been sent also where the exchange's answer is an exception.
  unfoldable pub execute :
      (create_order : Order F → Result Done)
      → Env
      → Order F
      → KrakenExecutor F
      → Result Done × KrakenExecutor F
  execute create_order env order x =
      let (r, x') = ccxt_client env x in
      elim r as (λ _. Result Done × KrakenExecutor F) [
        | err e ↦ (err e, x')
        | ok keys ↦ (create_order order, record x' { sent = x'.sent ++ ((order, keys) ∷ []) })
      ]

  -- The object after its construction, or the refusal.
  unfoldable pub new_executor : (allow_live : Bool) → World F → Result (KrakenExecutor F)
  new_executor allow_live w =
      elim (make_kraken_executor allow_live w) as (λ _. Result (KrakenExecutor F)) [
        | err e ↦ err e
        | ok _ ↦ ok (record { client = none; sent = [] })
      ]
