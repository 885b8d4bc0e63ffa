-- ===== src/Kraken/Collect.antt =====
-- core/kraken_paper.py: what the turns of the loops execute, and how the loops collect their events.
use keel_trader.Base.{
  ◌≡◌, ◌∙◌, refl, sym, ap, false, Option, none, some, List, [], ◌∷◌, ◌++◌, map, All, All-append,
}
use mathlib.Core.List.{append-nil, append_assoc}
use mathlib.Core.Path.{subst}
use keel_trader.Base.Text.{text_eq}
use keel_trader.Double.{Double, le}
use keel_trader.Outcome.{Result, ok, err}
use keel_trader.Singleton.State.{Order}
use keel_trader.Broker.{order}
use keel_trader.Kraken.{PaperFill, Trader, collect}

module _ {F : Type 0} ⦃d : Double F⦄ where
  -- The order behind a fill.
  abbrev pub order_of : PaperFill F → Order F
  order_of ev = order (ev.symbol) (ev.side) (ev.qty) (ev.decision_price)

  abbrev pub IsFilled : PaperFill F → Type 0
  IsFilled ev = le (ev.fill_price) (d.nought) ≡ false

  abbrev pub events_of : Option (PaperFill F) → List (PaperFill F)
  events_of none = []
  events_of (some ev) = ev ∷ []

  -- The executor has seen the events' orders, in order, and the books are not yet written.
  pub record Executed (t t' : Trader F) (events : List (PaperFill F)) : Type 0 where
    pub executed_lem : t'.world.filled ≡ t.world.filled ++ map order_of events
    pub fills_lem : t'.fills ≡ t.fills
    pub ledger_lem : t'.ledger ≡ t.ledger
    pub filled_lem : All IsFilled events

  pub Executed-nil : (t : Trader F) → Executed t t []
  Executed-nil t = record {
    executed_lem = sym (append-nil (t.world.filled));
    fills_lem = refl;
    ledger_lem = refl;
    filled_lem = tt;
  }

  pub map-append :
      (xs ys : List (PaperFill F)) → map order_of (xs ++ ys) ≡ map order_of xs ++ map order_of ys
  map-append [] ys = refl
  map-append (x ∷ xs) ys = ap (◌∷◌ (order_of x)) (map-append xs ys)

  pub Executed-append :
      (t u v : Trader F) (xs ys : List (PaperFill F))
      → Executed t u xs
      → Executed u v ys
      → Executed t v (xs ++ ys)
  Executed-append t u v xs ys a b = record {
    executed_lem =
        b.executed_lem
        ∙ ap (λ f. f ++ map order_of ys) (a.executed_lem)
        ∙ append_assoc (t.world.filled) (map order_of xs) (map order_of ys)
        ∙ ap (λ z. t.world.filled ++ z) (sym (map-append xs ys));
    fills_lem = b.fills_lem ∙ a.fills_lem;
    ledger_lem = b.ledger_lem ∙ a.ledger_lem;
    filled_lem = All-append IsFilled xs ys (a.filled_lem) (b.filled_lem);
  }

  -- What a turn that returns has done.
  abbrev pub Turns : Trader F → Result (Option (PaperFill F)) × Trader F → Type 0
  Turns t (err e, t') = Unit
  Turns t (ok o, t') = Executed t t' (events_of o)

  abbrev pub Collects :
      Trader F → List (PaperFill F) → Result (List (PaperFill F)) × Trader F → Type 0
  Collects t events (err e, t') = Unit
  Collects t events (ok all, t') =
      (more : List (PaperFill F)) × (all ≡ events ++ more) × Executed t t' more

  Collects-after :
      (t u : Trader F) (events xs : List (PaperFill F)) (r : Result (List (PaperFill F)) × Trader F)
      → Executed t u xs
      → Collects u (events ++ xs) r
      → Collects t events r
  Collects-after t u events xs (err e, t') a h = tt
  Collects-after t u events xs (ok all, t') a (more, e, b) =
      (xs ++ more, e ∙ append_assoc events xs more, Executed-append t u t' xs more a b)

  -- A turn, and the rest of the loop unless it has raised.
  chain-Collects :
      (t : Trader F) (events : List (PaperFill F)) (r : Result (Option (PaperFill F)) × Trader F)
      (next : List (PaperFill F) → Trader F → Result (List (PaperFill F)) × Trader F)
      → Turns t r
      → ((events : List (PaperFill F)) (t : Trader F) → Collects t events (next events t))
      → Collects t events (elim (r.0) as (λ _. Result (List (PaperFill F)) × Trader F) [
        | err e ↦ (err e, r.1)
        | ok none ↦ next events (r.1)
        | ok (some ev) ↦ next (events ++ (ev ∷ [])) (r.1)
      ])
  chain-Collects t events (err e, t') next turned ih = tt
  chain-Collects t events (ok none, t') next turned ih =
      Collects-after t t' events [] (next events t') turned
        (subst (λ z. Collects t' z (next events t')) (sym (append-nil events)) (ih events t'))
  chain-Collects t events (ok (some ev), t') next turned ih =
      Collects-after t t' events (ev ∷ []) (next (events ++ (ev ∷ [])) t') turned
        (ih (events ++ (ev ∷ [])) t')

  pub collect-Collects :
      {A : Type 0} (act : A → Trader F → Result (Option (PaperFill F)) × Trader F)
      → ((a : A) (t : Trader F) → Turns t (act a t))
      → (xs : List A) (events : List (PaperFill F)) (t : Trader F)
      → Collects t events (collect act xs events t)
  collect-Collects act h [] events t = ([], sym (append-nil events), Executed-nil t)
  collect-Collects act h (a ∷ rest) events t =
      chain-Collects t events (act a t) (λ es u. collect act rest es u) (h a t)
        (λ es u. collect-Collects act h rest es u)
