-- ===== src/Config.antt =====
-- core/config.py: the paper flag and the live-enable gate, read from the environment under a
-- broker-neutral name and its legacy alias. The environment is a function from names to values.
use keel_trader.Base.{Bool, true, false, not, Option, none, some, List, [], ◌∷◌, any, same}
use keel_trader.Base.Text.{Text, codes, strip, lower, text_eq}

abbrev pub Env : Type 0
Env = Text → Option Text

abbrev pub keel_paper : Text
keel_paper = codes "KEEL_PAPER"

abbrev pub alp_paper : Text
alp_paper = codes "ALP_PAPER"

abbrev pub paper_env_vars : List Text
paper_env_vars = keel_paper ∷ alp_paper ∷ []

abbrev pub live_enable_env_vars : List Text
live_enable_env_vars = codes "KEEL_ALLOW_LIVE_TRADING" ∷ codes "ALLOW_ALPACA_LIVE_TRADING" ∷ []

-- `s in {w, …}`
abbrev pub among : Text → List Text → Bool
among s ws = any (same s) ws

abbrev pub truthy_words : List Text
truthy_words = codes "1" ∷ codes "true" ∷ codes "yes" ∷ codes "on" ∷ []

abbrev pub falsy_words : List Text
falsy_words = codes "0" ∷ codes "false" ∷ codes "no" ∷ codes "off" ∷ []

-- A missing variable reads as the empty text, which is no truthy word.
unfoldable pub env_truthy : Option Text → Bool
env_truthy none = false
env_truthy (some v) = among (lower (strip v)) truthy_words

unfoldable pub env_truthy_is_live : Text → Bool
env_truthy_is_live raw = among (lower (strip raw)) falsy_words

-- The loop of `_resolve_paper`: the first variable that is set decides.
unfoldable pub first_set : List Text → Env → Bool
first_set [] env = true
first_set (name ∷ names) env = elim (env name) [
  | some raw ↦ not (env_truthy_is_live raw)
  | none ↦ first_set names env
]

unfoldable pub resolve_paper : Env → Bool
unfolding first_set
resolve_paper = first_set paper_env_vars

unfoldable pub live_trading_enabled : Env → Bool
live_trading_enabled env = any (λ n. env_truthy (env n)) live_enable_env_vars
