-- ===== src/Policies/Order.antt =====
-- Lists made in order by calls that may raise, and the strict comparison of floats.
use keel_trader.Base.{Bool, true, false, List, [], ◌∷◌, arith, ◌≡◌, All, any, inl, inr, Bool-cases}
use keel_trader.Double.{Double, lt}
use keel_trader.Double.Order.{IsOrdered}
use keel_trader.Outcome.{Result, ok, Result-cases, each}

module _ {F : Type 0} ⦃d : Double F⦄ (laws : IsOrdered F) where
  pub lt_trans : (x y z : F) → lt x y ≡ true → lt y z ≡ true → lt x z ≡ true
  lt_trans x y z a b = ground (arith, laws.le_trans x y z, laws.le_trans z x y)

pub lt_asymm : {F : Type 0} ⦃d : Double F⦄ (x y : F) → lt x y ≡ true → lt y x ≡ false
lt_asymm x y h = ground arith

pub lt_irrefl : {F : Type 0} ⦃d : Double F⦄ (x : F) → lt x x ≡ false
lt_irrefl ⦃d⦄ x = ground arith

-- An element of what the calls return comes from a call.
pub each-any {κ} :
    {A B : Type 0} (P : A → Type κ) (f : A → Result B) (q : B → Bool) (xs : List A) {ys : List B}
    → All P xs
    → each f xs ≡ ok ys
    → any q ys ≡ true
    → (x : A) × (y : B) × P x × (f x ≡ ok y) × (q y ≡ true)
each-any P f q [] h e g = ground arith
each-any P f q (x ∷ xs) (h, hs) e g = elim (Result-cases (f x)) [
  | inl (_, r) ↦ ground arith
  | inr (y, r) ↦ elim (Result-cases (each f xs)) [
    | inl (_, t) ↦ ground arith
    | inr (zs, t) ↦ elim (Bool-cases (q y)) [
      | inl b ↦ (x, y, h, r, b)
      | inr b ↦ each-any P f q xs hs t (ground arith)
    ]
  ]
]
