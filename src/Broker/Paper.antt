-- ===== src/Broker/Paper.antt =====
-- core/broker.py with core/config.py: how a live broker can come to be.
use keel_trader.Base.{
  ◌≡◌, ◌⊎◌, ◌∙◌, sym, Bool, true, false, none, some, arith, any, Option-cases, inl, inr,
}
use keel_trader.Base.Text.{Text}
use keel_trader.Config.{
  Env, env_truthy, env_truthy_is_live, first_set, resolve_paper, live_trading_enabled, keel_paper,
  alp_paper, live_enable_env_vars,
}
use keel_trader.Outcome.{ok}
use keel_trader.Singleton.State.{World}
use keel_trader.Broker.{Broker, make_broker}

-- The paper flag that decides says live: the first one, or the second where the first is not set.
abbrev pub SaysLive : Env → Type 0
SaysLive env =
    ((v : Text) × (env keel_paper ≡ some v) × (env_truthy_is_live v ≡ true))
    ⊎ ((env keel_paper ≡ none)
        × (v : Text) × (env alp_paper ≡ some v)
        × (env_truthy_is_live v ≡ true))

resolve_paper_live : (env : Env) → resolve_paper env ≡ false → SaysLive env
unfolding resolve_paper first_set
resolve_paper_live env h = elim (Option-cases (env keel_paper)) [
  | inr (v, e) ↦ inl (v, e, ground arith)
  | inl e ↦ elim (Option-cases (env alp_paper)) [
    | inr (v, f) ↦ inr (e, v, f, ground arith)
    | inl f ↦ absurd (ground arith)
  ]
]

module _ {F : Type 0} where
  -- A broker that is built with the default mode and is live can only be built where the caller
  -- allows it, a live-enable flag is set to a truthy word, and the paper flag that decides is set
  -- to a falsy word. With nothing set, it is paper.
  pub make_broker_live :
      (allow_live : Bool) (w : World F) {b : Broker}
      → w.paper ≡ resolve_paper (w.env)
      → (make_broker none allow_live w).0 ≡ ok b
      → b.paper ≡ false
      → (allow_live ≡ true)
        × (any (λ n. env_truthy (w.env n)) live_enable_env_vars ≡ true)
        × SaysLive (w.env)
  unfolding make_broker live_trading_enabled
  make_broker_live allow_live w flag done live =
      let said : w.paper ≡ false = ground arith in
      (ground arith, ground arith, resolve_paper_live (w.env) (sym flag ∙ said))
