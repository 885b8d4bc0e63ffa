-- ===== src/Singleton/Guard.antt =====
-- core/alpaca_singleton.py: `guard_sell_against_death_spiral`.
use keel_trader.Base.{
  Bool, false, not, ◌&&◌, ◌||◌, Option, none, some, List, [], ◌∷◌, if◌then◌else◌, ◌==◌, length, any,
  or_default,
}
use keel_trader.Base.Text.{Text, codes, strip, lower, upper, text_eq}
use keel_trader.Base.Dict.{lookup}
use keel_trader.Double.{Double, le, lt, is_finite}
use keel_trader.Config.{Env, among, env_truthy}
use keel_trader.Outcome.{value_error, runtime_error}
use keel_trader.Account.Name.{normalize_account_name}
use keel_trader.Singleton.State.{
  Entry, not_dict, entry, SingletonState, Action, Done, pure, raise, or_raise, ◌>>=◌, ◌>>◌,
  write_marker, deprecated_kwargs, guard_override, refusing_sell, current_account_name,
  current_buy_memory_seconds, default_tolerance_bps, default_atr_tolerance_mult,
}
use keel_trader.Singleton.Buys.{load_buys, save_buys, prune_buys, float_field, is_unpriced}

abbrev pub sell_sides : List Text
sell_sides = codes "sell" ∷ codes "short" ∷ []

abbrev pub guard_override_vars : List Text
guard_override_vars = codes "KEEL_DEATH_SPIRAL_OVERRIDE" ∷ codes "ALPACA_DEATH_SPIRAL_OVERRIDE" ∷ []

-- `_any_env_flag`
abbrev pub any_env_flag : List Text → Env → Bool
any_env_flag names env = any (λ n. env_truthy (env n)) names

-- The keyword arguments of the guard.
pub record GuardArgs (F : Type 0) : Type 0 where
  pub tolerance_bps : Option F
  pub atr_pct : Option F
  pub atr_tolerance_mult : Option F
  -- whether any of the removed keywords was given
  pub deprecated : Bool

abbrev pub no_args : {F : Type 0} → GuardArgs F
no_args = record {
  tolerance_bps = none;
  atr_pct = none;
  atr_tolerance_mult = none;
  deprecated = false;
}

abbrev pub is_sell : Text → Bool
is_sell side = among (lower (strip side)) sell_sides

module _ {F : Type 0} ⦃d : Double F⦄ where
  -- The single tolerance: the explicit one, or the configured one, or the default.
  unfoldable pub base_bps : Option (SingletonState F) → GuardArgs F → F
  base_bps state args =
      or_default (args.tolerance_bps)
        (elim state [ some s ↦ s.death_spiral_tolerance_bps | none ↦ default_tolerance_bps ])

  unfoldable pub tolerance : Option (SingletonState F) → GuardArgs F → F
  unfolding base_bps
  tolerance state args =
      let base = base_bps state args in
      elim (args.atr_pct) [
        | none ↦ base
        | some atr ↦
            let mult = or_default (args.atr_tolerance_mult) (elim state as (λ _. F) [
              | some s ↦ s.atr_tolerance_mult
              | none ↦ default_atr_tolerance_mult
            ]) in
            let vol = d.mul (d.mul mult atr) (d.lit 10_000 1) in
            if is_finite atr && lt (d.nought) atr && lt base vol then vol else base
      ]

  -- The lowest price at which a sale is let through.
  unfoldable pub floor_price : F → F → F
  floor_price buy_price tol_bps = d.mul buy_price (d.sub (d.one) (d.div tol_bps (d.lit 10_000 1)))

  -- The test on the record of the last purchase.
  unfoldable pub check_record : F → F → Option (Entry F) → Action F Done
  check_record tol price none = pure tt
  check_record tol price (some not_dict) = raise value_error
  check_record tol price (some (entry ts paid)) = elim (float_field (d.nought) paid) [
    | none ↦ raise value_error
    | some buy_price ↦
        if le buy_price (d.nought)
        then pure tt
        else if lt price (floor_price buy_price tol)
        then write_marker refusing_sell >> raise runtime_error
        else pure tt
  ]

  -- The part under `_buy_memory_guard`. The memory is written again only if something was pruned.
  unfoldable pub check_memory : GuardArgs F → Text → F → Action F Done
  unfolding load_buys save_buys
  check_memory args symbol price w =
      (do
        safe ← or_raise (normalize_account_name (current_account_name w)) value_error
        stored ← load_buys safe
        kept ← or_raise (prune_buys (w.now) (current_buy_memory_seconds w) stored) value_error
        if length kept == length stored then pure tt else save_buys safe kept
        check_record (tolerance (w.state) args) price (lookup (upper symbol) kept))
        w

  unfoldable pub guard_sell : GuardArgs F → (symbol side : Text) → (price : F) → Action F Done
  guard_sell args symbol side price w =
      (do
        if args.deprecated then write_marker deprecated_kwargs else pure tt
        if not (is_sell side) || is_unpriced symbol price
            then pure tt
            else if any_env_flag guard_override_vars (w.env)
            then write_marker guard_override
            else check_memory args symbol price)
        w
