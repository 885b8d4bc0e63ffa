-- ===== src/Singleton/Buys.antt =====
-- core/alpaca_singleton.py: `_load_buys`, `_quarantine_buy_memory_file`, `_save_buys`,
-- `_prune_buys`, `record_buy_price`, `forget_buy` and `forget_all_buys`.
use mathlib.Core.Option
use keel_trader.Base.{
  ℕ, Bool, not, ◌||◌, Option, none, some, [], ◌∷◌, ◌++◌, if◌then◌else◌, ltb, length,
}
use keel_trader.Base.Text.{Text, upper, text_eq}
use keel_trader.Base.Dict.{insert, erase}
use keel_trader.Double.{Double, le, is_finite}
use keel_trader.Outcome.{ok, value_error}
use keel_trader.Account.Lock.{write}
use keel_trader.Account.Name.{normalize_account_name}
use keel_trader.Singleton.State.{
  Field, missing, junk, num, not_dict, entry, Buys, absent, unreadable, corrupt, not_object, buys,
  unreadable_memory, corrupt_memory, invalid_memory, quarantine_failed, Action, Done, pure,
  or_raise, ◌>>=◌, ◌>>◌, write_marker, current_account_name, current_buy_memory_seconds,
}

module _ {F : Type 0} where
  abbrev move_away : Text → Action F Done
  move_away safe w = (
    ok tt,
    record w {
      memory = write (w.memory) safe absent;
      quarantined = w.quarantined ++ ((safe, w.memory safe) ∷ []);
    },
  )

  -- The file is moved away, or stays where the move fails.
  unfoldable pub quarantine_buy_memory_file : Text → Action F Done
  quarantine_buy_memory_file safe w =
      (if w.can_quarantine then move_away safe else write_marker quarantine_failed) w

  -- `_load_buys`, at the normalised account name: anything that cannot be read counts as empty.
  unfoldable pub load_buys : Text → Action F (Buys F)
  unfolding quarantine_buy_memory_file
  load_buys safe w = elim (w.memory safe) [
    | absent ↦ (ok [], w)
    | unreadable ↦ (write_marker unreadable_memory >> pure []) w
    | corrupt ↦ (quarantine_buy_memory_file safe >> write_marker corrupt_memory >> pure []) w
    | not_object ↦ (quarantine_buy_memory_file safe >> write_marker invalid_memory >> pure []) w
    | buys b ↦ (ok b, w)
  ]

  unfoldable pub save_buys : Text → Buys F → Action F Done
  save_buys safe b w = (ok tt, record w { memory = write (w.memory) safe (buys b) })

module _ {F : Type 0} ⦃d : Double F⦄ where
  -- `float(rec.get(key, default))`; `none` where it raises
  abbrev pub float_field : F → Field F → Option F
  float_field default missing = some default
  float_field default (num x) = some x
  float_field default junk = none

  -- `_prune_buys`; `none` where a time of purchase is no number
  unfoldable pub prune_buys : F → ℕ → Buys F → Option (Buys F)
  prune_buys now max_age [] = some []
  prune_buys now max_age ((sym, not_dict) ∷ b) = prune_buys now max_age b
  prune_buys now max_age ((sym, entry ts price) ∷ b) =
      let rest = prune_buys now max_age b in
      elim (float_field (d.nought) ts) [
        | none ↦ none
        | some t ↦
            if le (d.sub now t) (d.lit max_age 1)
            then Option.map (◌∷◌ (sym, entry ts price)) rest
            else rest
      ]

  -- The symbol or the price is none that is remembered or guarded.
  abbrev pub is_unpriced : Text → F → Bool
  is_unpriced symbol price = ltb (length symbol) 1 || le price (d.nought) || not (is_finite price)

  -- The part of `record_buy_price` under `_buy_memory_guard`.
  unfoldable pub remember_buy : Text → F → Action F Done
  unfolding load_buys save_buys
  remember_buy symbol price w =
      (do
        safe ← or_raise (normalize_account_name (current_account_name w)) value_error
        stored ← load_buys safe
        kept ← or_raise (prune_buys (w.now) (current_buy_memory_seconds w) stored) value_error
        save_buys safe (insert (upper symbol) (entry (num (w.now)) (num price)) kept))
        w

  unfoldable pub record_buy_price : Text → F → Action F Done
  record_buy_price symbol price =
      if is_unpriced symbol price then pure tt else remember_buy symbol price

  unfoldable pub forget_buy : Text → Action F Done
  unfolding load_buys save_buys
  forget_buy symbol w =
      (do
        safe ← or_raise (normalize_account_name (current_account_name w)) value_error
        stored ← load_buys safe
        save_buys safe (erase (upper symbol) stored))
        w

  unfoldable pub forget_all_buys : Action F Done
  unfolding save_buys
  forget_all_buys w =
      (do
        safe ← or_raise (normalize_account_name (current_account_name w)) value_error
        save_buys safe [])
        w
