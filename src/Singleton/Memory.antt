-- ===== src/Singleton/Memory.antt =====
-- core/alpaca_singleton.py: the buy memory over time, through pruning and writing.
use keel_trader.Base.{
  ℕ, ◌≡◌, true, false, some, [], ◌∷◌, arith, ◌∙◌, Option-cases, is_some, is_some-eq, inl, inr,
}
use keel_trader.Base.Text.{Text, upper, text_eq, text_beq_refl}
use keel_trader.Base.Dict.{lookup, insert, lookup-insert}
use keel_trader.Double.{Double, le, lt}
use keel_trader.Outcome.{ok, err, runtime_error}
use keel_trader.Account.Name.{normalize_account_name}
use keel_trader.Singleton.State.{
  Field, num, not_dict, entry, Buys, BuyFile, buys, World, current_account_name,
  current_buy_memory_seconds,
}
use keel_trader.Singleton.Buys.{prune_buys, is_unpriced, record_buy_price, remember_buy}
use keel_trader.Singleton.Guard.{
  GuardArgs, is_sell, guard_override_vars, any_env_flag, guard_sell, tolerance, floor_price,
}
use keel_trader.Singleton.Floor.{Remembers, guard_sell-floor}

module _ {F : Type 0} ⦃d : Double F⦄ where
  -- A record within the window is kept.
  prune-lookup_fresh :
      (now : F) (secs : ℕ) (k : Text) (t : F) (price : Field F) (b : Buys F) {kept : Buys F}
      → prune_buys now secs b ≡ some kept
      → lookup k b ≡ some (entry (num t) price)
      → le (d.sub now t) (d.lit secs 1) ≡ true
      → lookup k kept ≡ some (entry (num t) price)
  unfolding prune_buys
  prune-lookup_fresh now secs k t price [] e found fresh = ground arith
  prune-lookup_fresh now secs k t price ((sym, not_dict) ∷ b) e found fresh =
      ground (arith, prune-lookup_fresh now secs k t price b e)
  prune-lookup_fresh now secs k t price ((sym, entry ts paid) ∷ b) e found fresh =
      elim (Option-cases (prune_buys now secs b)) [
        | inl f ↦ ground arith
        | inr (rest, f) ↦ ground (arith, prune-lookup_fresh now secs k t price b f)
      ]

  -- What was pruned once can be pruned at any time.
  prune-prune :
      (now later : F) (secs : ℕ) (b : Buys F) {kept : Buys F}
      → prune_buys now secs b ≡ some kept
      → is_some (prune_buys later secs kept) ≡ true
  unfolding prune_buys
  prune-prune now later secs [] e = ground arith
  prune-prune now later secs ((sym, not_dict) ∷ b) e = prune-prune now later secs b e
  prune-prune now later secs ((sym, entry ts paid) ∷ b) e =
      elim (Option-cases (prune_buys now secs b)) [
        | inl f ↦ ground arith
        | inr (rest, f) ↦ elim (Option-cases (prune_buys later secs rest)) [
          | inl g ↦ ground (arith, prune-prune now later secs b f)
          | inr (more, g) ↦ ground arith
        ]
      ]

  prune-insert :
      (later : F) (secs : ℕ) (k : Text) (t p : F) (b : Buys F)
      → is_some (prune_buys later secs b) ≡ true
      → is_some (prune_buys later secs (insert k (entry (num t) (num p)) b)) ≡ true
  unfolding prune_buys
  prune-insert later secs k t p [] e = ground arith
  prune-insert later secs k t p ((sym, not_dict) ∷ b) e =
      elim (Option-cases (prune_buys later secs b)) [
        | inl f ↦ ground arith
        | inr (rest, f) ↦ ground (arith, prune-insert later secs k t p b e)
      ]
  prune-insert later secs k t p ((sym, entry ts paid) ∷ b) e =
      elim (Option-cases (prune_buys later secs b)) [
        | inl f ↦ ground arith
        | inr (rest, f) ↦
            let (more, g) =
              is_some-eq (prune_buys later secs (insert k (entry (num t) (num p)) b))
                (prune-insert later secs k t p b (rw f)) in
            ground arith
      ]

  -- The purchases that a file holds, as the program reads it.
  abbrev pub contents : BuyFile F → Buys F
  contents (buys b) = b
  contents _ = []

  -- What `record_buy_price` leaves: the memory under the account's normal name, pruned, with the
  -- purchase written over the symbol's last one.
  record_buy_price-stored :
      (symbol : Text) (p : F) (w : World F) (safe : Text) (kept : Buys F)
      → is_unpriced symbol p ≡ false
      → normalize_account_name (current_account_name w) ≡ some safe
      → prune_buys (w.now) (current_buy_memory_seconds w) (contents (w.memory safe)) ≡ some kept
      → ((record_buy_price symbol p w).1.memory safe
          ≡ buys (insert (upper symbol) (entry (num (w.now)) (num p)) kept))
  unfolding record_buy_price remember_buy
  record_buy_price-stored symbol p w safe kept priced e f =
      rw (priced, record_buy_price) (ground (arith, text_beq_refl safe))

  -- It succeeds only where the account has a normal name and the memory can be pruned.
  record_buy_price-pruned :
      (symbol : Text) (p : F) (w : World F)
      → is_unpriced symbol p ≡ false
      → (record_buy_price symbol p w).0 ≡ ok tt
      → (safe : Text) × (kept : Buys F) × (normalize_account_name (current_account_name w)
          ≡ some safe)
        × (prune_buys (w.now) (current_buy_memory_seconds w) (contents (w.memory safe)) ≡ some kept)
  unfolding record_buy_price remember_buy
  record_buy_price-pruned symbol p w priced done =
      let written : (remember_buy symbol p w).0 ≡ ok tt = rw (priced, record_buy_price) at done in
      elim (Option-cases (normalize_account_name (current_account_name w))) [
        | inl e ↦ ground arith
        | inr (safe, e) ↦
            elim (Option-cases
              (prune_buys (w.now) (current_buy_memory_seconds w) (contents (w.memory safe)))) [
                | inl f ↦ ground arith
                | inr (kept, f) ↦ (safe, kept, e, f)
              ]
      ]

  -- A later world with the same memory and singleton, within the window, remembers the purchase.
  pub record_buy_price-Remembers :
      (symbol alias : Text) (p : F) (w later : World F)
      → is_unpriced symbol p ≡ false
      → (record_buy_price symbol p w).0 ≡ ok tt
      → upper alias ≡ upper symbol
      → later.state ≡ w.state
      → later.memory ≡ (record_buy_price symbol p w).1.memory
      → le (d.sub (later.now) (w.now)) (d.lit (current_buy_memory_seconds w) 1) ≡ true
      → Remembers later alias p
  record_buy_price-Remembers symbol alias p w later priced done spelled same_state same_memory
        fresh =
      let (safe, kept, e, f) = record_buy_price-pruned symbol p w priced done in
      let stored : Buys F = insert (upper symbol) (entry (num (w.now)) (num p)) kept in
      let secs = current_buy_memory_seconds w in
      let (again, g) = is_some-eq (prune_buys (later.now) secs stored) (
        prune-insert (later.now) secs (upper symbol) (w.now) p kept
          (prune-prune (w.now) (later.now) secs (contents (w.memory safe)) f)) in
      record {
        safe = safe;
        stored = stored;
        kept = again;
        ts = num (w.now);
        is_account = rw same_state e;
        is_stored = rw same_memory (record_buy_price-stored symbol p w safe kept priced e f);
        is_kept = rw same_state g;
        is_record = rw spelled (
            prune-lookup_fresh (later.now) secs (upper symbol) (w.now) (num p) stored g
              (rw (lookup-insert (upper symbol) (upper symbol) (entry (num (w.now)) (num p)) kept)
                (rw (text_beq_refl (upper symbol))))
              fresh);
        is_positive = ground arith;
      }

  -- Once a purchase has been recorded, a sale of the symbol below the floor under that price is
  -- refused, in any later world in which the memory and the singleton are as they were left, the
  -- purchase is within the window of the memory, and no override is set; the symbol may be spelled
  -- in another case.
  pub guard_sell-record_buy_price :
      (args : GuardArgs F) (symbol alias side : Text) (p price : F) (w later : World F)
      → is_unpriced symbol p ≡ false
      → (record_buy_price symbol p w).0 ≡ ok tt
      → upper alias ≡ upper symbol
      → later.state ≡ w.state
      → later.memory ≡ (record_buy_price symbol p w).1.memory
      → le (d.sub (later.now) (w.now)) (d.lit (current_buy_memory_seconds w) 1) ≡ true
      → is_sell side ≡ true
      → is_unpriced alias price ≡ false
      → any_env_flag guard_override_vars (later.env) ≡ false
      → lt price (floor_price p (tolerance (later.state) args)) ≡ true
      → (guard_sell args alias side price later).0 ≡ err runtime_error
  guard_sell-record_buy_price args symbol alias side p price w later priced done spelled s m fresh
        sells sell_priced strict below =
      guard_sell-floor args alias side price p later sells sell_priced strict
        (record_buy_price-Remembers symbol alias p w later priced done spelled s m fresh)
      ∙ (rw below)
