-- ===== src/Singleton/Implements.antt =====
-- core/alpaca_singleton.py: that a purchase and a reading of the buy memory implement the ledger's.
use mathlib.Core.Path.{subst}
use keel_trader.Base.{
  ◌≡◌, ◌∙◌, refl, sym, ap, ◌==◌, length, true, false, Option, some, All, arith, Bool-cases, inl,
  inr, if◌then◌else◌,
}
use keel_trader.Base.Text.{Text, upper, text_eq, text_beq_refl}
use keel_trader.Base.Dict.{lookup, insert-IsDict, IsDict}
use keel_trader.Double.{Double, le, is_finite}
use keel_trader.Outcome.{ok}
use keel_trader.Account.Name.{normalize_account_name}
use keel_trader.Singleton.State.{
  num, Entry, entry, Buys, World, current_account_name, current_buy_memory_seconds, SingletonState,
}
use keel_trader.Singleton.Buys.{save_buys, prune_buys, is_unpriced, record_buy_price}
use keel_trader.Singleton.Guard.{GuardArgs, tolerance, check_memory, check_record}
use keel_trader.Singleton.Frame.{check_record-Keeps, check_record-memory}
use keel_trader.Singleton.Ledger.{buys_at, Ledger, verdict, ledger_act}
use keel_trader.Singleton.Pruned.{IsRecord, fresh_only, IsPruned, prune_buys-IsPruned}
use keel_trader.Singleton.Files.{
  Holds, record_buy_price-none, record_buy_price-Holds, check_memory-Holds,
}
use keel_trader.Singleton.Match.{
  window, Match, Match-fresh, insert-IsRecord, Match-insert, check_record-verdict,
}

module _ {F : Type 0} ⦃d : Double F⦄ (safe : Text) (w0 : World F)
    (is_account : normalize_account_name (current_account_name w0) ≡ some safe) where
  -- The world beside the ledger: the file holds well-formed records that match the purchases.
  pub record Implements (w : World F) (l : Ledger F) : Type 0 where
    pub stored : Buys F
    pub state_lem : w.state ≡ w0.state
    pub env_lem : w.env ≡ w0.env
    pub now_lem : w.now ≡ l.now
    pub finite : is_finite (l.now) ≡ true
    pub holds : Holds (w.memory safe) stored
    pub records : All IsRecord stored
    pub dict : IsDict stored
    pub matches : (k : Text) → Match w0 (l.now) (lookup k stored) (l.bought k)

  pub Implements-same :
      (w w' : World F) (l : Ledger F)
      → w'.state ≡ w.state
      → w'.env ≡ w.env
      → w'.now ≡ w.now
      → w'.memory safe ≡ w.memory safe
      → Implements w l
      → Implements w' l
  Implements-same w w' l s e n m i = record {
    stored = i.stored;
    state_lem = s ∙ i.state_lem;
    env_lem = e ∙ i.env_lem;
    now_lem = n ∙ i.now_lem;
    finite = i.finite;
    holds = rw m (i.holds);
    records = i.records;
    dict = i.dict;
    matches = i.matches;
  }

  check_record-Implements :
      (tol price : F) (o : Option (Entry F)) (w : World F) (l : Ledger F)
      → Implements w l
      → Implements (check_record tol price o w).1 l
  check_record-Implements tol price o w l =
      let k = check_record-Keeps tol price o w in
      Implements-same w _ l (k.state_lem) (k.env_lem) (k.now_lem)
        (ap (λ m. m safe) (check_record-memory tol price o w))

  -- The same, with the file written anew.
  save_buys-ok : (b : Buys F) (w : World F) → (save_buys safe b w).0 ≡ ok tt
  unfolding save_buys
  save_buys-ok b w = refl

  Implements-stored :
      (w : World F) (l l' : Ledger F) (b : Buys F)
      → Implements w l
      → l'.now ≡ l.now
      → All IsRecord b
      → IsDict b
      → ((k : Text) → Match w0 (l.now) (lookup k b) (l'.bought k))
      → Implements (save_buys safe b w).1 l'
  unfolding save_buys
  Implements-stored w l l' b i n r h m = record {
    stored = b;
    state_lem = i.state_lem;
    env_lem = i.env_lem;
    now_lem = i.now_lem ∙ sym n;
    finite = rw n (i.finite);
    holds = inl (rw (text_beq_refl safe) refl);
    records = r;
    dict = h;
    matches = λ k. rw n (m k);
  }

  module _ (w : World F) (l : Ledger F) (i : Implements w l) where
    named : normalize_account_name (current_account_name w) ≡ some safe
    named = rw (i.state_lem) is_account

    -- The memory as pruning leaves it.
    pruned :
        (kept : Buys F) × (prune_buys (w.now) (current_buy_memory_seconds w) (i.stored) ≡ some kept)
        × IsPruned (l.now) (current_buy_memory_seconds w0) (i.stored) kept
    pruned =
        let (kept, q) =
          prune_buys-IsPruned (l.now) (current_buy_memory_seconds w0) (i.stored) (i.records)
            (i.dict) in
        (kept, rw (i.now_lem, i.state_lem) (q.pruned), q)

    pruned-Match :
        (kept : Buys F)
        → IsPruned (l.now) (current_buy_memory_seconds w0) (i.stored) kept
        → (k : Text) → Match w0 (l.now) (lookup k kept) (l.bought k)
    pruned-Match kept q k =
        rw (q.found k) (Match-fresh w0 (l.now) (lookup k (i.stored)) (l.bought k) (i.matches k))

    pub buys_at-Implements :
        (symbol : Text) (price : F)
        → let (r, w') = record_buy_price symbol price w in
          let (v, l') = ledger_act (w0.state) (window w0) (buys_at symbol price) l in
          (r ≡ v) × Implements w' l'
    buys_at-Implements symbol price =
        let (kept, e, q) = pruned in
        elim (Bool-cases (is_unpriced symbol price)) [
          | inl unpriced ↦ rw (record_buy_price-none w symbol price unpriced, unpriced) (refl, i)
          | inr priced ↦
              let p : le price (d.nought) ≡ false = ground arith in
              rw
                (
                  record_buy_price-Holds safe w (i.stored) kept named (i.holds) e symbol price
                      priced,
                  priced,
                )
                (
                  save_buys-ok _ w,
                  Implements-stored w l _ _ i refl
                      (insert-IsRecord w0 (upper symbol) (w.now) price kept (q.records))
                      (insert-IsDict (upper symbol) (entry (num (w.now)) (num price)) kept (q.dict))
                      λ k. rw (i.now_lem) (
                        Match-insert w0 (l.now) price (upper symbol) k kept (l.bought) (i.finite) p
                          (pruned-Match kept q k)),
                )
        ]

    check_record-read :
        (args : GuardArgs F) (price : F) (k : Text) (o : Option (Entry F))
        (state : Option (SingletonState F)) (v : World F)
        → state ≡ w0.state
        → o ≡ fresh_only (l.now) (current_buy_memory_seconds w0) (lookup k (i.stored))
        → (check_record (tolerance state args) price o v).0
          ≡ verdict (w0.state) (window w0) args price (l.now) (l.bought k)
    check_record-read args price k o state v e f =
        rw (e, f)
          (check_record-verdict w0 args price (l.now) (lookup k (i.stored)) (l.bought k) v
            (i.matches k))

    -- What the guard reads, and what it leaves of the memory.
    pub check_memory-Implements :
        (args : GuardArgs F) (symbol : Text) (price : F)
        → ((check_memory args symbol price w).0
            ≡ verdict (w0.state) (window w0) args price (l.now) (l.bought (upper symbol)))
          × Implements (check_memory args symbol price w).1 l
    check_memory-Implements args symbol price =
        let (kept, e, q) = pruned in
        let v : World F =
          if length kept == length (i.stored) then w else (save_buys safe kept w).1 in
        let j : Implements v l = elim (Bool-cases (length kept == length (i.stored))) [
          | inl whole ↦ rw whole i
          | inr cut ↦
              rw cut
                (Implements-stored w l l kept i refl (q.records) (q.dict) (pruned-Match kept q))
        ] in
        let asked = check_memory-Holds safe w (i.stored) kept named (i.holds) e args symbol price in
        let tol = tolerance (w.state) args in
        (
          ap (λ c. c.0) asked
              ∙ check_record-read args price (upper symbol) (lookup (upper symbol) kept) (w.state) v
                  (i.state_lem) (q.found (upper symbol)),
          subst (λ c. Implements (c.1) l) (sym asked)
              (check_record-Implements tol price (lookup (upper symbol) kept) v l j),
        )
