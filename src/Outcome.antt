-- ===== src/Outcome.antt =====
-- How a call ends: with a value, or with an exception, by the classes that the callers tell apart.
use mathlib.Core.Path.{subst}
use keel_trader.Base.{
  ℕ, ◌≡◌, ◌⊎◌, refl, inl, inr, Option, none, some, List, [], ◌∷◌, AllPairs, arith, get_elem?,
}

pub data Error : Type 0 where
  -- `ValueError` and `TypeError`, of a bad name or of `float(…)`
  value_error : Error
  -- a plain `RuntimeError`: a refusal by the guard or by the lock
  runtime_error : Error
  -- `OrderRejectedError`
  order_rejected : Error
  -- `OrderRequestError`
  bad_request : Error
  -- the refusals to run live: `LiveBrokerForbiddenError`, `LiveExecutorForbiddenError`,
  -- `LiveWriteAttemptError`
  live_forbidden : Error
  -- `KeyError`
  key_error : Error
  -- `ZeroDivisionError`
  zero_division : Error
  -- `IndexError`
  index_error : Error
  -- `struct.error`
  struct_error : Error
  -- `OverflowError`
  overflow_error : Error
  -- `FileNotFoundError`
  file_not_found : Error
  -- `SystemExit(code)`
  system_exit : ℕ → Error
  -- no exception: the loop is still running after all the turns that the model gives it
  out_of_turns : Error

pub data Result {ℓ} (A : Type ℓ) : Type ℓ where
  ok : A → Result A
  err : Error → Result A

pub ok-injective {ℓ} : {A : Type ℓ} {a b : A} → ok a ≡ ok b → a ≡ b
ok-injective e = cc

pub Result-cases {ℓ} :
    {A : Type ℓ} (r : Result A) → ((e : Error) × (r ≡ err e)) ⊎ ((a : A) × (r ≡ ok a))
Result-cases (err e) = inl (e, refl)
Result-cases (ok a) = inr (a, refl)

-- What follows a call, which an exception skips.
infixl 5 ◌>>=◌
abbrev pub ◌>>=◌ {ℓ κ} : {A : Type ℓ} {B : Type κ} → Result A → (A → Result B) → Result B
err e >>= f = err e
ok a >>= f = f a

-- What a call returns, if it returns, has the property.
abbrev pub Gives {ℓ} : {A : Type ℓ} → (A → Type 0) → Result A → Type 0
Gives P (err e) = Unit
Gives P (ok x) = P x

pub Gives-bind {ℓ κ} :
    {A : Type ℓ} {B : Type κ} (P : B → Type 0) (m : Result A) (f : A → Result B)
    → ((x : A) → m ≡ ok x → Gives P (f x))
    → Gives P (m >>= f)
Gives-bind P (err e) f h = tt
Gives-bind P (ok x) f h = h x refl

pub Gives-ok {ℓ} : {A : Type ℓ} (P : A → Type 0) {m : Result A} {x : A} → Gives P m → m ≡ ok x → P x
Gives-ok P g e = subst (Gives P) e g

pub Gives-map {ℓ} :
    {A : Type ℓ} (P Q : A → Type 0) (m : Result A) → ((x : A) → P x → Q x) → Gives P m → Gives Q m
Gives-map P Q (err e) f g = tt
Gives-map P Q (ok x) f g = f x g

abbrev pub or_error {ℓ} : {A : Type ℓ} → Option A → Error → Result A
or_error (some a) e = ok a
or_error none e = err e

-- `xs[i]`
abbrev pub at {ℓ} : {A : Type ℓ} → List A → ℕ → Result A
at xs i = or_error (get_elem? xs i) index_error

-- A call for each element, in order.
abbrev pub each {ℓ κ} : {A : Type ℓ} {B : Type κ} → (A → Result B) → List A → Result (List B)
each f [] = ok []
each f (x ∷ xs) = do y ← f x; ys ← each f xs; ok (y ∷ ys)

pub each-AllPairs {ℓ κ} :
    {A : Type ℓ} {B : Type κ} (R : A → B → Type 0) (f : A → Result B)
    → ((x : A) (y : B) → f x ≡ ok y → R x y)
    → (xs : List A) (ys : List B) → each f xs ≡ ok ys
    → AllPairs R xs ys
each-AllPairs R f h [] [] e = tt
each-AllPairs R f h [] (y ∷ ys) e = ground arith
each-AllPairs R f h (x ∷ xs) ys e = elim (Result-cases (f x)) [
  | inl (_, r) ↦ ground arith
  | inr (y, r) ↦ elim (Result-cases (each f xs)) [
    | inl (_, t) ↦ ground arith
    | inr (zs, t) ↦
        let made : y ∷ zs ≡ ys = ground arith in
        subst (AllPairs R (x ∷ xs)) made (h x y r, each-AllPairs R f h xs zs t)
  ]
]
