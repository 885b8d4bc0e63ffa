-- ===== src/Singleton/Pruned.antt =====
-- core/alpaca_singleton.py: what pruning leaves of a memory of well-formed records.
use keel_trader.Base.{
  ℕ, ◌≡◌, refl, Option, none, some, [], ◌∷◌, All, arith, Bool-cases, inl, inr, if◌then◌else◌,
}
use keel_trader.Base.Text.{Text, text_eq, text_beq_iff}
use keel_trader.Base.Dict.{lookup, IsDict}
use keel_trader.Double.{Double, le}
use keel_trader.Singleton.State.{num, missing, junk, Entry, entry, not_dict, Buys}
use keel_trader.Singleton.Buys.{prune_buys}

module _ {F : Type 0} where
  -- A record as `record_buy_price` writes it.
  abbrev pub IsRecord : Text × Entry F → Type 0
  IsRecord (k, entry (num t) (num p)) = Unit
  IsRecord _ = ⊥

module _ {F : Type 0} ⦃d : Double F⦄ (now : F) (secs : ℕ) where
  -- A record that is not past the window.
  abbrev pub fresh_only : Option (Entry F) → Option (Entry F)
  fresh_only (some (entry (num t) price)) =
      if le (d.sub now t) (d.lit secs 1) then some (entry (num t) price) else none
  fresh_only _ = none

  pub record IsPruned (b kept : Buys F) : Type 0 where
    pub pruned : prune_buys now secs b ≡ some kept
    pub records : All IsRecord kept
    pub dict : IsDict kept
    pub found : (k : Text) → lookup k kept ≡ fresh_only (lookup k b)

  pub prune_buys-IsPruned :
      (b : Buys F) → All IsRecord b → IsDict b → (kept : Buys F) × IsPruned b kept
  unfolding prune_buys
  prune_buys-IsPruned [] r h =
      ([], record { pruned = refl; records = tt; dict = tt; found = λ k. refl })
  prune_buys-IsPruned ((sym, entry (num t) (num p)) ∷ b) (r, rs) (new, h) =
      let (kept, q) = prune_buys-IsPruned b rs h in
      elim (Bool-cases (le (d.sub now t) (d.lit secs 1))) [
        | inl f ↦ (
          (sym, entry (num t) (num p)) ∷ kept,
          record {
            pruned = ground (arith, q.pruned);
            records = (tt, q.records);
            dict = (ground (arith, q.found sym), q.dict);
            found = λ k. ground (arith, q.found k);
          },
        )
        | inr f ↦ (
          kept,
          record {
            pruned = ground (arith, q.pruned);
            records = q.records;
            dict = q.dict;
            found = λ k. ground (arith, q.found k, text_beq_iff k sym);
          },
        )
      ]
  prune_buys-IsPruned ((sym, not_dict) ∷ b) (r, rs) h = elim r [ ]
  prune_buys-IsPruned ((sym, entry missing p) ∷ b) (r, rs) h = elim r [ ]
  prune_buys-IsPruned ((sym, entry junk p) ∷ b) (r, rs) h = elim r [ ]
  prune_buys-IsPruned ((sym, entry (num t) missing) ∷ b) (r, rs) h = elim r [ ]
  prune_buys-IsPruned ((sym, entry (num t) junk) ∷ b) (r, rs) h = elim r [ ]
