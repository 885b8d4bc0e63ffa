-- ===== src/Singleton/Refines.antt =====
-- core/alpaca_singleton.py: that the buy memory implements the ledger, whatever the calls.
use keel_trader.Base.{
  ◌≡◌, refl, ap, arith, true, false, not, ◌||◌, none, some, List, [], ◌∷◌, Bool-cases, inl, inr,
  if◌then◌else◌,
}
use keel_trader.Base.Text.{Text}
use keel_trader.Double.{Double, le, is_finite}
use keel_trader.Double.Order.{IsOrdered, IsShift}
use keel_trader.Outcome.{ok}
use keel_trader.Account.Name.{normalize_account_name}
use keel_trader.Singleton.State.{
  absent, World, current_account_name, write_marker, deprecated_kwargs,
}
use keel_trader.Singleton.Buys.{is_unpriced}
use keel_trader.Singleton.Guard.{GuardArgs, is_sell, guard_override_vars, any_env_flag, guard_sell}
use keel_trader.Singleton.Files.{guard_sell_strict}
use keel_trader.Singleton.Match.{window, Match-later}
use keel_trader.Singleton.Ledger.{
  Event, buys_at, asks, passes, Ledger, answers, ledger_act, ledger_answers,
}
use keel_trader.Singleton.Implements.{
  Implements, Implements-same, buys_at-Implements, check_memory-Implements,
}

module _ {F : Type 0} ⦃d : Double F⦄ where
  -- The clock shows numbers and does not go back.
  abbrev pub IsRun : F → List (Event F) → Type 0
  IsRun now [] = Unit
  IsRun now (passes later ∷ es) = (is_finite later ≡ true) × (le now later ≡ true) × IsRun later es
  IsRun now (_ ∷ es) = IsRun now es

module _ {F : Type 0} ⦃d : Double F⦄ (ord : IsOrdered F) (shift : IsShift F) (safe : Text)
    (w0 : World F) (is_account : normalize_account_name (current_account_name w0) ≡ some safe)
    (strict : any_env_flag guard_override_vars (w0.env) ≡ false) where
  asks-Implements :
      (args : GuardArgs F) (symbol side : Text) (price : F) (w : World F) (l : Ledger F)
      → Implements safe w0 is_account w l
      → let (r, w') = guard_sell args symbol side price w in
        let (v, l') = ledger_act (w0.state) (window w0) (asks args symbol side price) l in
        (r ≡ v) × Implements safe w0 is_account w' l'
  asks-Implements args symbol side price w l i =
      let v : World F = if args.deprecated then (write_marker deprecated_kwargs w).1 else w in
      let j : Implements safe w0 is_account v l = elim (Bool-cases (args.deprecated)) [
        | inl old ↦ rw old (Implements-same safe w0 is_account w _ l refl refl refl refl i)
        | inr none_given ↦ rw none_given i
      ] in
      let said = guard_sell_strict w args symbol side price (rw (i.env_lem) strict) in
      elim (Bool-cases (not (is_sell side) || is_unpriced symbol price)) [
        | inl skip ↦ rw (said, skip) (refl, j)
        | inr ask ↦
            rw (said, ask) (check_memory-Implements safe w0 is_account v l j args symbol price)
      ]

  passes-Implements :
      (later : F) (w : World F) (l : Ledger F)
      → is_finite later ≡ true
      → le (l.now) later ≡ true
      → Implements safe w0 is_account w l
      → Implements safe w0 is_account (record w { now = later }) (record l { now = later })
  passes-Implements later w l fin after i = record {
    stored = i.stored;
    state_lem = i.state_lem;
    env_lem = i.env_lem;
    now_lem = refl;
    finite = fin;
    holds = i.holds;
    records = i.records;
    dict = i.dict;
    matches = λ k.
        Match-later w0 ord shift (l.now) later _ (l.bought k) (i.finite) fin after (i.matches k);
  }

  buys_at-now :
      (symbol : Text) (price : F) (l : Ledger F)
      → (ledger_act (w0.state) (window w0) (buys_at symbol price) l).1.now ≡ l.now
  buys_at-now symbol price l = ground arith

  answers-Implements :
      (es : List (Event F)) (w : World F) (l : Ledger F)
      → IsRun (l.now) es
      → Implements safe w0 is_account w l
      → answers es w ≡ ledger_answers (w0.state) (window w0) es l
  unfolding answers ledger_answers
  answers-Implements [] w l run i = refl
  answers-Implements (buys_at symbol price ∷ es) w l run i =
      let (r, j) = buys_at-Implements safe w0 is_account w l i symbol price in
      let rest = answers-Implements es _ _ (rw (buys_at-now symbol price l) run) j in
      λ t. r t ∷ rest t
  answers-Implements (asks args symbol side price ∷ es) w l run i =
      let (r, j) = asks-Implements args symbol side price w l i in
      let rest = answers-Implements es _ l run j in λ t. r t ∷ rest t
  answers-Implements (passes later ∷ es) w l (fin, after, run) i =
      let j = passes-Implements later w l fin after i in
      ap (λ rs. ok tt ∷ rs) (answers-Implements es _ _ run j)

  -- Whatever purchases and sales the program is called with, in whatever order and at whatever
  -- times, it answers as the ledger does: a purchase is accepted, and a sale with a symbol and a
  -- positive, finite price is refused exactly where that price lies below the floor under the last
  -- such purchase of the symbol, in either case of letters, and that purchase is within the window.
  -- Neither the file nor its pruning shows in an answer. The clock shows numbers and does not go
  -- back, comparing and subtracting are as IEEE 754 has them, the account has a normal name, no
  -- override is set, and there is no file at first.
  pub answers-ledger_answers :
      (es : List (Event F))
      → is_finite (w0.now) ≡ true
      → IsRun (w0.now) es
      → w0.memory safe ≡ absent
      → answers es w0
        ≡ ledger_answers (w0.state) (window w0) es (record { now = w0.now; bought = λ k. none })
  answers-ledger_answers es fin run empty = answers-Implements es w0 _ run (record {
    stored = [];
    state_lem = refl;
    env_lem = refl;
    now_lem = refl;
    finite = fin;
    holds = inr (empty, refl);
    records = tt;
    dict = tt;
    matches = λ k. tt;
  })
