-- ===== src/Base/Dict.antt =====
-- A Python dict in insertion order: assignment keeps the place of a key that is there.
use mathlib.Core.Path.{◌≡◌, refl}
use mathlib.Core.Bool.{Bool, true, false}
use mathlib.Core.Option.{Option, none, some}
use mathlib.Core.List.{List, [], ◌∷◌}
use native.Mathlib.Omega.{arith}
use keel_trader.Base.Tests.{Eq, same, if◌then◌else◌}

abbrev pub Dict {ℓ κ} : Type ℓ → Type κ → Type (ℓ ⊔ κ)
Dict K V = List (K × V)

module _ {ℓ κ} {K : Type ℓ} {V : Type κ} ⦃e : Eq K⦄ where
  -- `d.get(k)`
  abbrev pub lookup : K → Dict K V → Option V
  lookup k [] = none
  lookup k ((j, v) ∷ d) = if same k j then some v else lookup k d

  -- `k in d`
  abbrev pub contains : K → Dict K V → Bool
  contains k d = elim (lookup k d) [ none ↦ false | some _ ↦ true ]

  -- `d[k] = v`
  abbrev pub insert : K → V → Dict K V → Dict K V
  insert k v [] = (k, v) ∷ []
  insert k v ((j, w) ∷ d) = if same k j then (j, v) ∷ d else (j, w) ∷ insert k v d

  -- `d.pop(k, None)`; the keys of a dict are distinct, and this drops every entry under `k`.
  abbrev pub erase : K → Dict K V → Dict K V
  erase k [] = []
  erase k ((j, w) ∷ d) = if same k j then erase k d else (j, w) ∷ erase k d

  -- `d.update(e)`
  abbrev pub update : Dict K V → Dict K V → Dict K V
  update d [] = d
  update d ((k, v) ∷ more) = update (insert k v d) more

  -- The keys of a dict are distinct.
  abbrev pub IsDict : Dict K V → Type κ
  IsDict [] = Unit
  IsDict ((k, v) ∷ d) = (lookup k d ≡ none) × IsDict d

  pub lookup-insert :
      (k j : K) (v : V) (d : Dict K V)
      → lookup j (insert k v d) ≡ (if same j k then some v else lookup j d)
  lookup-insert k j v [] = ground arith
  lookup-insert k j v ((i, w) ∷ d) =
      ground
        (arith, e.beq_iff k j, e.beq_iff k i, e.beq_iff j i, e.beq_iff j k, lookup-insert k j v d)

  pub lookup-erase :
      (k j : K) (d : Dict K V) → lookup j (erase k d) ≡ (if same j k then none else lookup j d)
  lookup-erase k j [] = ground arith
  lookup-erase k j ((i, w) ∷ d) =
      ground (arith, e.beq_iff k j, e.beq_iff k i, e.beq_iff j i, e.beq_iff j k, lookup-erase k j d)

  -- After an update a key has what it has in the second dict, or else what it had.
  pub lookup-update :
      (k : K) (d more : Dict K V)
      → IsDict more
      → lookup k (update d more) ≡ elim (lookup k more) [ some v ↦ some v | none ↦ lookup k d ]
  lookup-update k d [] h = refl
  lookup-update k d ((j, v) ∷ more) (h, hs) =
      ground (arith, lookup-update k (insert j v d) more hs, lookup-insert j k v d, e.beq_iff k j)

  pub insert-IsDict : (k : K) (v : V) (d : Dict K V) → IsDict d → IsDict (insert k v d)
  insert-IsDict k v [] h = (refl, tt)
  insert-IsDict k v ((j, w) ∷ d) (fresh, h) =
      ground (arith, e.beq_iff k j, e.beq_iff j k, lookup-insert k j v d, insert-IsDict k v d h)

  pub update-IsDict : (d more : Dict K V) → IsDict d → IsDict (update d more)
  update-IsDict d [] h = h
  update-IsDict d ((k, v) ∷ more) h = update-IsDict (insert k v d) more (insert-IsDict k v d h)
