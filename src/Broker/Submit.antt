-- ===== src/Broker/Submit.antt =====
-- core/broker.py: what one call of `submit_order` can do, on every outcome.
use mathlib.Core.Path.{subst}
use keel_trader.Base.{
  ap, sym, ◌≡◌, ◌∙◌, ◌⊎◌, refl, true, false, [], ◌∷◌, ◌++◌, arith, Bool-cases, inl, inr, same,
}
use keel_trader.Base.Text.{Text, lower, strip, text_eq, text_beq_iff}
use keel_trader.Double.{Double}
use keel_trader.Outcome.{Result, ok, err, order_rejected}
use keel_trader.Singleton.State.{Order, World}
use keel_trader.Singleton.Guard.{no_args, guard_sell}
use keel_trader.Singleton.Frame.{guard_sell-Keeps, record_buy_price-Keeps}
use keel_trader.Broker.{
  Executor, paper_execute, submit_order, guard_and_execute, is_malformed, order, buy, sell,
}

module _ {F : Type 0} ⦃d : Double F⦄ where
  -- An order that is executed has passed the guard in the world in which it was submitted.
  abbrev pub Approved : World F → Order F → Type 0
  Approved w o = (guard_sell no_args (o.symbol) (o.side) (o.price) w).0 ≡ ok tt

  abbrev pub IsWellFormed : Order F → Type 0
  IsWellFormed o = is_malformed (o.symbol) (o.side) (o.qty) (o.price) ≡ false

  -- Either the executor has seen nothing, or just the one order, well formed and approved.
  abbrev pub Wrote : World F → World F → Order F → Type 0
  Wrote w w' o =
      (w'.filled ≡ w.filled) ⊎ ((w'.filled ≡ w.filled ++ (o ∷ [])) × Approved w o × IsWellFormed o)

  -- The world after the guard, and the world after the executor.
  abbrev pub guarded : Order F → World F → World F
  guarded o w = (guard_sell no_args (o.symbol) (o.side) (o.price) w).1

  abbrev pub executed : Order F → World F → World F
  executed o w = record (guarded o w) { filled = (guarded o w).filled ++ (o ∷ []) }

  guard_and_execute-Wrote :
      (o : Order F) (w : World F)
      → IsWellFormed o
      → Wrote w (guard_and_execute paper_execute o w).1 o
  unfolding guard_and_execute paper_execute
  guard_and_execute-Wrote o w formed = ground (
    arith,
    guard_sell-Keeps no_args (o.symbol) (o.side) (o.price) w,
    record_buy_price-Keeps (o.symbol) (o.price) (executed o w),
  )

  pub submit_order-good :
      (execute : Executor F) (symbol side : Text) (qty price : F) (w : World F)
      → is_malformed symbol (lower (strip side)) qty price ≡ false
      → submit_order execute symbol side qty price w
        ≡ guard_and_execute execute (order symbol (lower (strip side)) qty price) w
  unfolding submit_order
  submit_order-good execute symbol side qty price w good = rw (good, submit_order)

  pub submit_order-bad :
      (execute : Executor F) (symbol side : Text) (qty price : F) (w : World F)
      → is_malformed symbol (lower (strip side)) qty price ≡ true
      → submit_order execute symbol side qty price w ≡ (err order_rejected, w)
  unfolding submit_order
  submit_order-bad execute symbol side qty price w bad = rw (bad, submit_order)

  -- Whatever `submit_order` is given and however it ends, the paper executor has seen either
  -- nothing or just the order with its side normalised, and then the side is known, the symbol is
  -- not empty, quantity and price are positive, and the guard had let the order through.
  pub submit_order-Wrote :
      (symbol side : Text) (qty price : F) (w : World F)
      → Wrote w
          (submit_order paper_execute symbol side qty price w).1
          (order symbol (lower (strip side)) qty price)
  submit_order-Wrote symbol side qty price w =
      elim (Bool-cases (is_malformed symbol (lower (strip side)) qty price)) [
        | inl bad ↦
            inl (ap (λ r. r.1.filled) (submit_order-bad paper_execute symbol side qty price w bad))
        | inr good ↦
            subst (λ r. Wrote w (r.1) (order symbol (lower (strip side)) qty price))
              (sym (submit_order-good paper_execute symbol side qty price w good))
              (guard_and_execute-Wrote (order symbol (lower (strip side)) qty price) w good)
      ]

  -- How a sale may end: in an exception, and the executor has seen nothing, or with the order, and
  -- the executor has seen it once.
  abbrev pub AllOrNothing : World F → Result (Order F) × World F → Type 0
  AllOrNothing w (err e, w') = w'.filled ≡ w.filled
  AllOrNothing w (ok o, w') = w'.filled ≡ w.filled ++ (o ∷ [])

  guard_and_execute-sell :
      (o : Order F) (w : World F)
      → same (o.side) sell ≡ true
      → AllOrNothing w (guard_and_execute paper_execute o w)
  unfolding guard_and_execute paper_execute
  guard_and_execute-sell o w sells = ground (
    arith,
    text_beq_iff (o.side) sell,
    text_beq_iff (o.side) buy,
    guard_sell-Keeps no_args (o.symbol) (o.side) (o.price) w,
  )

  -- Through a broker with the paper executor, which never raises: a sale that ends in an exception
  -- has not reached the executor, and one that returns an order has reached it just once, with the
  -- order returned.
  pub submit_order-sell :
      (symbol side : Text) (qty price : F) (w : World F)
      → same (lower (strip side)) sell ≡ true
      → AllOrNothing w (submit_order paper_execute symbol side qty price w)
  submit_order-sell symbol side qty price w sells =
      elim (Bool-cases (is_malformed symbol (lower (strip side)) qty price)) [
        | inl bad ↦
            subst (AllOrNothing w)
              (sym (submit_order-bad paper_execute symbol side qty price w bad)) refl
        | inr good ↦
            subst (AllOrNothing w)
              (sym (submit_order-good paper_execute symbol side qty price w good))
              (guard_and_execute-sell (order symbol (lower (strip side)) qty price) w sells)
      ]

  guard_and_execute-ok :
      (o p : Order F) (w : World F)
      → (guard_and_execute paper_execute o w).0 ≡ ok p
      → (p ≡ o) × ((guard_and_execute paper_execute o w).1.filled ≡ w.filled ++ (o ∷ []))
  unfolding guard_and_execute paper_execute
  guard_and_execute-ok o p w done = ground (
    arith,
    guard_sell-Keeps no_args (o.symbol) (o.side) (o.price) w,
    record_buy_price-Keeps (o.symbol) (o.price) (executed o w),
  )

  -- An order that is returned is the one submitted, with its side normalised, and the executor has
  -- seen it once.
  pub submit_order-ok :
      (symbol side : Text) (qty price : F) (w : World F) {o : Order F}
      → (submit_order paper_execute symbol side qty price w).0 ≡ ok o
      → let sent = order symbol (lower (strip side)) qty price in
        (o ≡ sent)
        × ((submit_order paper_execute symbol side qty price w).1.filled ≡ w.filled ++ (sent ∷ []))
  submit_order-ok symbol side qty price w {o = o} done =
      let sent = order symbol (lower (strip side)) qty price in
      elim (Bool-cases (is_malformed symbol (lower (strip side)) qty price)) [
        | inl bad ↦ ground (arith, submit_order-bad paper_execute symbol side qty price w bad)
        | inr good ↦
            let e = submit_order-good paper_execute symbol side qty price w good in
            let (same_order, more) = guard_and_execute-ok sent o w (ap (λ r. r.0) (sym e) ∙ done) in
            (same_order, ap (λ r. r.1.filled) e ∙ more)
      ]
