-- ===== src/Singleton/Match.antt =====
-- core/alpaca_singleton.py: how a record of the buy memory stands to a purchase in the ledger.
use keel_trader.Base.{
  ◌≡◌, refl, true, false, Option, none, some, [], ◌∷◌, All, arith, Bool-cases, inl, inr,
  if◌then◌else◌, same,
}
use keel_trader.Base.Text.{Text, text_eq}
use keel_trader.Base.Dict.{lookup, insert, lookup-insert}
use keel_trader.Double.{Double, le, is_finite}
use keel_trader.Double.Order.{IsOrdered, IsShift}
use keel_trader.Singleton.State.{
  num, missing, junk, Entry, entry, not_dict, Buys, World, current_buy_memory_seconds,
}
use keel_trader.Singleton.Guard.{GuardArgs, tolerance, check_record}
use keel_trader.Singleton.Ledger.{verdict}
use keel_trader.Singleton.Pruned.{IsRecord, fresh_only}

module _ {F : Type 0} ⦃d : Double F⦄ (w0 : World F) where
  -- The window of the memory.
  abbrev pub window : F
  window = d.lit (current_buy_memory_seconds w0) 1

  -- What the memory holds under a symbol, beside the ledger: the same purchase, or nothing where
  -- the purchase is past the window.
  abbrev pub Match : (now : F) → Option (Entry F) → Option (F × F) → Type 0
  Match now none none = Unit
  Match now none (some (t, p)) = (le (d.sub now t) window ≡ false) × (is_finite t ≡ true)
  Match now (some (entry (num t) (num p))) (some (t', p')) =
      (t ≡ t') × (p ≡ p') × (le p (d.nought) ≡ false) × (is_finite t ≡ true)
  Match now (some _) _ = ⊥

  pub Match-fresh :
      (now : F) (o : Option (Entry F)) (p : Option (F × F))
      → Match now o p
      → Match now (fresh_only now (current_buy_memory_seconds w0) o) p
  Match-fresh now none p m = m
  Match-fresh now (some (entry (num t) (num q))) (some (t', p')) m =
      elim (Bool-cases (le (d.sub now t) window)) [ inl b ↦ rw b m | inr b ↦ rw b (ground arith) ]
  Match-fresh now (some (entry (num t) (num q))) none m = elim m [ ]
  Match-fresh now (some not_dict) p m = elim m [ ]
  Match-fresh now (some (entry missing q)) p m = elim m [ ]
  Match-fresh now (some (entry junk q)) p m = elim m [ ]
  Match-fresh now (some (entry (num t) missing)) p m = elim m [ ]
  Match-fresh now (some (entry (num t) junk)) p m = elim m [ ]

  pub Match-later :
      IsOrdered F
      → IsShift F
      → (now later : F) (o : Option (Entry F)) (p : Option (F × F)) → is_finite now ≡ true
      → is_finite later ≡ true
      → le now later ≡ true
      → Match now o p
      → Match later o p
  Match-later ord shift now later none none f g h m = tt
  Match-later ord shift now later none (some (t, p)) f g h (stale, fin) =
      let earlier = shift.sub_mono now later t f g fin h in
      elim (Bool-cases (le (d.sub later t) window)) [
        | inl b ↦
            absurd (ground (arith, ord.le_trans (d.sub now t) (d.sub later t) window earlier b))
        | inr b ↦ (b, fin)
      ]
  Match-later ord shift now later (some (entry (num t) (num q))) (some (t', p')) f g h m = m
  Match-later ord shift now later (some (entry (num t) (num q))) none f g h m = elim m [ ]
  Match-later ord shift now later (some not_dict) p f g h m = elim m [ ]
  Match-later ord shift now later (some (entry missing q)) p f g h m = elim m [ ]
  Match-later ord shift now later (some (entry junk q)) p f g h m = elim m [ ]
  Match-later ord shift now later (some (entry (num t) missing)) p f g h m = elim m [ ]
  Match-later ord shift now later (some (entry (num t) junk)) p f g h m = elim m [ ]

  pub insert-IsRecord :
      (k : Text) (t p : F) (b : Buys F)
      → All IsRecord b
      → All IsRecord (insert k (entry (num t) (num p)) b)
  insert-IsRecord k t p [] r = (tt, tt)
  insert-IsRecord k t p ((j, e) ∷ b) (r, rs) = elim (Bool-cases (same k j)) [
    | inl y ↦ rw y (tt, rs)
    | inr n ↦ rw n (r, insert-IsRecord k t p b rs)
  ]

  pub Match-insert :
      (now price : F) (k j : Text) (b : Buys F) (bought : Text → Option (F × F))
      → is_finite now ≡ true
      → le price (d.nought) ≡ false
      → Match now (lookup j b) (bought j)
      → Match now
          (lookup j (insert k (entry (num now) (num price)) b))
          (if same j k then some (now, price) else bought j)
  Match-insert now price k j b bought fin priced m =
      rw (lookup-insert k j (entry (num now) (num price)) b)
        (elim (Bool-cases (same j k)) [ inl y ↦ rw y (refl, refl, priced, fin) | inr n ↦ rw n m ])

  -- The decision on the record that pruning leaves is the ledger's.
  pub check_record-verdict :
      (args : GuardArgs F) (price now : F) (o : Option (Entry F)) (p : Option (F × F)) (w : World F)
      → Match now o p
      → (check_record
          (tolerance (w0.state) args)
          price
          (fresh_only now (current_buy_memory_seconds w0) o)
          w).0
        ≡ verdict (w0.state) window args price now p
  unfolding check_record
  check_record-verdict args price now none none w m = refl
  check_record-verdict args price now none (some (t, p)) w (stale, fin) = rw stale refl
  check_record-verdict args price now (some (entry (num t) (num q))) (some (t', p')) w m =
      ground (arith, m)
  check_record-verdict args price now (some (entry (num t) (num q))) none w m = elim m [ ]
  check_record-verdict args price now (some not_dict) p w m = elim m [ ]
  check_record-verdict args price now (some (entry missing q)) p w m = elim m [ ]
  check_record-verdict args price now (some (entry junk q)) p w m = elim m [ ]
  check_record-verdict args price now (some (entry (num t) missing)) p w m = elim m [ ]
  check_record-verdict args price now (some (entry (num t) junk)) p w m = elim m [ ]
