-- ===== src/Broker/Trace.antt =====
-- core/broker.py: orders over time, and what has reached the executor.
use mathlib.Core.Path.{subst}
use keel_trader.Base.{
  ◌≡◌, refl, sym, ap, ◌∙◌, true, false, List, [], ◌∷◌, ◌++◌, arith, inl, inr, All, All-map,
  All-append,
}
use keel_trader.Base.Text.{Text, upper, lower, strip, text_eq}
use keel_trader.Double.{Double, lt, le, is_finite}
use keel_trader.Outcome.{ok, err, runtime_error}
use keel_trader.Singleton.State.{Order, World, current_buy_memory_seconds}
use keel_trader.Singleton.Buys.{record_buy_price, is_unpriced}
use keel_trader.Singleton.Guard.{
  no_args, guard_sell, tolerance, floor_price, any_env_flag, guard_override_vars,
}
use keel_trader.Singleton.Frame.{guard_sell-Keeps}
use keel_trader.Singleton.Memory.{guard_sell-record_buy_price}
use keel_trader.Broker.{
  paper_execute, submit_order, guard_and_execute, is_malformed, order, buy, sell,
}
use keel_trader.Broker.Submit.{Approved, IsWellFormed, submit_order-Wrote, submit_order-good}

module _ {F : Type 0} ⦃d : Double F⦄ where
  -- One step of a process with a broker: an order, or anything that is no order (the clock, the
  -- environment, the files, another process), which leaves the executor's record alone.
  pub data Step (w v : World F) : Type 0 where
    submits :
        (symbol side : Text) (qty price : F)
        → v ≡ (submit_order paper_execute symbol side qty price w).1
        → Step w v
    passes : v.filled ≡ w.filled → Step w v

  pub data Reach (w : World F) : World F → Type 0 where
    here : Reach w w
    next : {u v : World F} → Reach w u → Step u v → Reach w v

  -- The order was submitted in the world `u`, at some step of the run.
  pub data Submitted (w : World F) : (v : World F) → Reach w v → World F → Order F → Type 0 where
    now :
        {u v : World F} (r : Reach w u) (symbol side : Text) (qty price : F)
        (e : v ≡ (submit_order paper_execute symbol side qty price u).1)
        → Submitted w v
            (next r (submits symbol side qty price e))
            u
            (order symbol (lower (strip side)) qty price)
    before :
        {u v x : World F} {o : Order F} (r : Reach w u) (st : Step u v)
        → Submitted w u r x o
        → Submitted w v (next r st) x o

  -- The order was submitted in a world of the run in which the guard let it through, well formed.
  abbrev pub Passed : {w v : World F} → Reach w v → Order F → Type 0
  Passed {w} {v} r o = (u : World F) × Submitted w v r u o × Approved u o × IsWellFormed o

  later-Passed :
      {w u v : World F} (r : Reach w u) (st : Step u v) (orders : List (Order F))
      → All (Passed r) orders
      → All (Passed (next r st)) orders
  later-Passed r st orders =
      All-map (Passed r) (Passed (next r st)) orders λ o (x, s, a, f). (x, before r st s, a, f)

  Step-Passed :
      {w u v : World F} (r : Reach w u) (st : Step u v)
      → All (Passed r) (u.filled)
      → All (Passed (next r st)) (v.filled)
  Step-Passed {u = u} r (submits symbol side qty price e) all =
      let st = submits symbol side qty price e in
      let kept = later-Passed r st (u.filled) all in
      elim (submit_order-Wrote symbol side qty price u) [
        | inl same_filled ↦
            subst (All (Passed (next r st))) (sym (ap (λ x. x.filled) e ∙ same_filled)) kept
        | inr (more, approved, formed) ↦
            subst (All (Passed (next r st))) (sym (ap (λ x. x.filled) e ∙ more)) (
              All-append (Passed (next r st)) (u.filled) _ kept
                ((u, now r symbol side qty price e, approved, formed), tt))
      ]
  Step-Passed {u = u} r (passes e) all =
      subst (All (Passed (next r (passes e)))) (sym e) (later-Passed r (passes e) (u.filled) all)

  -- Whatever happens from a start with nothing executed, each order that the paper executor has
  -- been given was submitted at a step of the run, and in the world of that step it was well formed
  -- and the death-spiral guard let it through.
  pub Reach-Passed : {w v : World F} (r : Reach w v) → w.filled ≡ [] → All (Passed r) (v.filled)
  Reach-Passed here e = subst (All (Passed here)) (sym e) tt
  Reach-Passed (next r st) e = Step-Passed r st (Reach-Passed r e)

  -- The guard lets a purchase pass.
  guard_sell-buy :
      (symbol : Text) (p : F) (w : World F) → guard_sell no_args symbol buy p w ≡ (ok tt, w)
  unfolding guard_sell
  guard_sell-buy symbol p w = refl

  abbrev bought : Order F → World F → World F
  bought o w = record w { filled = w.filled ++ (o ∷ []) }

  -- A purchase that returns has been remembered.
  guard_and_execute-buy :
      (symbol : Text) (qty p : F) (w : World F)
      → let o = order symbol buy qty p in
        let recorded = record_buy_price symbol p (bought o w) in
        (guard_and_execute paper_execute o w).0 ≡ ok o
        → (recorded.0 ≡ ok tt) × ((guard_and_execute paper_execute o w).1 ≡ recorded.1)
  unfolding guard_and_execute paper_execute
  guard_and_execute-buy symbol qty p w done = ground (arith, guard_sell-buy symbol p w)

  is_unpriced_of_good :
      (symbol side : Text) (qty p : F)
      → is_malformed symbol side qty p ≡ false
      → is_finite p ≡ true
      → is_unpriced symbol p ≡ false
  is_unpriced_of_good symbol side qty p good finite = ground arith

  guard_and_execute-refused :
      (o : Order F) (w : World F)
      → (guard_sell no_args (o.symbol) (o.side) (o.price) w).0 ≡ err runtime_error
      → let (r, v) = guard_and_execute paper_execute o w in
        (r ≡ err runtime_error) × (v.filled ≡ w.filled)
  unfolding guard_and_execute
  guard_and_execute-refused o w refused =
      ground (arith, guard_sell-Keeps no_args (o.symbol) (o.side) (o.price) w)

  -- After a purchase through the broker, a sale of the symbol below the floor under its price is
  -- refused and not executed: in any later world with the memory and the singleton as the purchase
  -- left them, within the window of the memory and with no override set. Both prices are finite.
  pub submit_order_no_spiral :
      (symbol alias : Text) (qty p sold price : F) (w later : World F)
      → (submit_order paper_execute symbol buy qty p w).0 ≡ ok (order symbol buy qty p)
      → is_malformed symbol buy qty p ≡ false
      → is_finite p ≡ true
      → later.state ≡ w.state
      → later.memory ≡ (submit_order paper_execute symbol buy qty p w).1.memory
      → le (d.sub (later.now) (w.now)) (d.lit (current_buy_memory_seconds w) 1) ≡ true
      → upper alias ≡ upper symbol
      → is_malformed alias sell sold price ≡ false
      → is_finite price ≡ true
      → any_env_flag guard_override_vars (later.env) ≡ false
      → lt price (floor_price p (tolerance (later.state) no_args)) ≡ true
      → let (r, v) = submit_order paper_execute alias sell sold price later in
        (r ≡ err runtime_error) × (v.filled ≡ later.filled)
  submit_order_no_spiral symbol alias qty p sold price w later done good finite s m fresh spelled
        good' finite' strict below =
      let o = order symbol buy qty p in
      let bought_eq = submit_order-good paper_execute symbol buy qty p w good in
      let (recorded, left) =
        guard_and_execute-buy symbol qty p w (ap (λ r. r.0) (sym bought_eq) ∙ done) in
      let refused =
        guard_sell-record_buy_price no_args symbol alias sell p price (bought o w) later
          (is_unpriced_of_good symbol buy qty p good finite) recorded spelled s
          (m ∙ ap (λ r. r.1.memory) bought_eq ∙ ap (λ v. v.memory) left) fresh refl
          (is_unpriced_of_good alias sell sold price good' finite') strict below in
      subst (λ r. (r.0 ≡ err runtime_error) × (r.1.filled ≡ later.filled))
        (sym (submit_order-good paper_execute alias sell sold price later good'))
        (guard_and_execute-refused (order alias sell sold price) later refused)
