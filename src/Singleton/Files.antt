-- ===== src/Singleton/Files.antt =====
-- core/alpaca_singleton.py: the calls on a file whose contents are known.
use keel_trader.Base.{
  ◌≡◌, ◌⊎◌, false, not, ◌||◌, some, [], arith, refl, true, inl, inr, if◌then◌else◌, ◌==◌, length,
}
use keel_trader.Base.Text.{Text, upper, text_eq}
use keel_trader.Base.Dict.{lookup, insert}
use keel_trader.Double.{Double}
use keel_trader.Outcome.{ok}
use keel_trader.Account.Name.{normalize_account_name}
use keel_trader.Singleton.State.{
  num, entry, Buys, BuyFile, absent, buys, World, write_marker, deprecated_kwargs,
  current_account_name, current_buy_memory_seconds,
}
use keel_trader.Singleton.Buys.{
  load_buys, save_buys, prune_buys, is_unpriced, record_buy_price, remember_buy,
}
use keel_trader.Singleton.Guard.{
  GuardArgs, is_sell, any_env_flag, guard_override_vars, guard_sell, check_memory, check_record,
  tolerance,
}

module _ {F : Type 0} where
  -- A file as the program finds it.
  abbrev pub Holds : BuyFile F → Buys F → Type 0
  Holds file b = (file ≡ buys b) ⊎ ((file ≡ absent) × (b ≡ []))

pub record_buy_price-none :
    {F : Type 0} ⦃d : Double F⦄ (w : World F) (symbol : Text) (price : F)
    → is_unpriced symbol price ≡ true
    → record_buy_price symbol price w ≡ (ok tt, w)
unfolding record_buy_price
record_buy_price-none w symbol price e = rw e refl

-- Where no override is set, the guard passes over what is no sale with a price, and asks the
-- memory otherwise, after a line on the removed keywords.
pub guard_sell_strict :
    {F : Type 0} ⦃d : Double F⦄ (w : World F) (args : GuardArgs F) (symbol side : Text) (price : F)
    → any_env_flag guard_override_vars (w.env) ≡ false
    → guard_sell args symbol side price w ≡ (
        let v = (if args.deprecated then (write_marker deprecated_kwargs w).1 else w) in
        if not (is_sell side) || is_unpriced symbol price
        then (ok tt, v)
        else check_memory args symbol price v)
unfolding guard_sell
guard_sell_strict w args symbol side price e = ground (arith, e)

module _ {F : Type 0} ⦃d : Double F⦄ (safe : Text) (w : World F) (b kept : Buys F)
    (is_account : normalize_account_name (current_account_name w) ≡ some safe)
    (holds : Holds (w.memory safe) b)
    (pruned : prune_buys (w.now) (current_buy_memory_seconds w) b ≡ some kept) where
  load_buys-Holds : load_buys safe w ≡ (ok b, w)
  unfolding load_buys
  load_buys-Holds = elim holds [ inl e ↦ ground arith | inr (e, f) ↦ ground arith ]

  pub record_buy_price-Holds :
      (symbol : Text) (price : F)
      → is_unpriced symbol price ≡ false
      → record_buy_price symbol price w
        ≡ save_buys safe (insert (upper symbol) (entry (num (w.now)) (num price)) kept) w
  unfolding record_buy_price remember_buy
  record_buy_price-Holds symbol price priced =
      ground (arith, priced, is_account, load_buys-Holds, pruned)

  pub check_memory-Holds :
      (args : GuardArgs F) (symbol : Text) (price : F)
      → check_memory args symbol price w
        ≡ check_record
            (tolerance (w.state) args)
            price
            (lookup (upper symbol) kept)
            (if length kept == length b then w else (save_buys safe kept w).1)
  unfolding check_memory
  check_memory-Holds args symbol price = ground (arith, is_account, load_buys-Holds, pruned)
