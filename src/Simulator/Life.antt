-- ===== src/Simulator/Life.antt =====
-- sim/keel_sim.py: what is freed of what was created.
use mathlib.Core.Path.{subst}
use keel_trader.Base.{
  ℕ, zero, suc, ◌+◌, ◌≡◌, refl, ap, ◌∙◌, Bool, true, false, List, [], ◌∷◌, count, arith, inl, inr,
  Bool-cases, ◌==◌, if◌then◌else◌,
}
use keel_trader.Base.Text.{Text}
use keel_trader.Outcome.{Result-cases}
use keel_trader.Simulator.{
  Call, create_env, free_env, Trace, Library, is_known, set_param, set_params, make_env,
  free_object, free_times,
}

module _ {F : Type 0} where
  -- The calls of `keel_env_free`.
  abbrev pub is_free : Call F → Bool
  is_free (free_env ptr) = true
  is_free _ = false

  free_times-null : (n : ℕ) (calls : Trace F) → free_times n 0 calls ≡ (0, calls)
  unfolding free_times free_object
  free_times-null zero calls = refl
  free_times-null (suc n) calls = free_times-null n calls

  free_times-once :
      (n ptr : ℕ) (calls : Trace F)
      → (ptr == 0) ≡ false
      → free_times (suc n) ptr calls ≡ (0, free_env ptr ∷ calls)
  unfolding free_times free_object
  free_times-once n ptr calls h =
      rw (h, free_times, free_object) (free_times-null n (free_env ptr ∷ calls))

module _ {F : Type 0} where
  free_times-count :
      (n ptr : ℕ) (made : Trace F) (before : ℕ)
      → count is_free made ≡ before
      → ((free_times (suc n) ptr made).0 ≡ 0)
        × (count is_free ((free_times (suc n) ptr made).1) ≡ before + (if ptr == 0 then 0 else 1))
        × ((free_times (suc n) ptr made).1 ≡ (if ptr == 0 then made else free_env ptr ∷ made))
  free_times-count n ptr made before e = elim (Bool-cases (ptr == 0)) [
    | inl b ↦
        let zero_ptr : ptr ≡ 0 = ground arith in
        let none_freed : free_times (suc n) ptr made ≡ (0, made) =
          ap (λ p. free_times (suc n) p made) zero_ptr ∙ free_times-null (suc n) made in
        rw (none_freed, b) (refl, omega (arith, e), refl)
    | inr b ↦ rw (free_times-once n ptr made b, b) (refl, omega (arith, e), refl)
  ]

module _ {F : Type 0} (lib : Library F) where
  set_param-frees :
      (ptr : ℕ) (name : Text) (value : F) (calls : Trace F)
      → count is_free ((set_param lib ptr name value calls).1) ≡ count is_free calls
  unfolding set_param
  set_param-frees ptr name value calls = elim (Bool-cases (is_known name)) [
    | inl b ↦ rw (b, set_param) refl
    | inr b ↦ rw (b, set_param) refl
  ]

  set_params-frees :
      (ptr : ℕ) (params : List (Text × F)) (calls : Trace F)
      → count is_free ((set_params lib ptr params calls).1) ≡ count is_free calls
  unfolding set_params
  set_params-frees ptr [] calls = refl
  set_params-frees ptr ((name, value) ∷ params) calls =
      let first = set_param lib ptr name value calls in
      elim (Result-cases (first.0)) [
        | inl (_, e) ↦ rw (e, set_params) (set_param-frees ptr name value calls)
        | inr (_, e) ↦
            rw (e, set_params)
              (set_params-frees ptr params (first.1) ∙ set_param-frees ptr name value calls)
      ]

  make_env-frees :
      (data_ptr : ℕ) (params : List (Text × F)) (calls : Trace F)
      → count is_free ((make_env lib data_ptr params calls).2) ≡ count is_free calls
  unfolding make_env
  make_env-frees data_ptr params calls =
      let ptr = lib.keel_env_create calls data_ptr in
      let next = create_env data_ptr ∷ calls in
      elim (Bool-cases (ptr == 0)) [
        | inl b ↦ rw (b, make_env) refl
        | inr b ↦ elim (Result-cases ((set_params lib ptr params next).0)) [
          | inl (_, e) ↦ rw (b, e, make_env) (set_params-frees ptr params next)
          | inr (_, e) ↦ rw (b, e, make_env) (set_params-frees ptr params next)
        ]
      ]

  -- The object holds what the library has given out.
  make_env-created :
      (data_ptr : ℕ) (params : List (Text × F)) (calls : Trace F)
      → (make_env lib data_ptr params calls).1 ≡ lib.keel_env_create calls data_ptr
  unfolding make_env
  make_env-created data_ptr params calls =
      let ptr = lib.keel_env_create calls data_ptr in
      elim (Bool-cases (ptr == 0)) [
        | inl b ↦ let null : 0 ≡ ptr = ground arith in rw (b, make_env) null
        | inr b ↦
            elim (Result-cases ((set_params lib ptr params (create_env data_ptr ∷ calls)).0)) [
              | inl (_, e) ↦ rw (b, e, make_env) refl
              | inr (_, e) ↦ rw (b, e, make_env) refl
            ]
      ]

  -- However the construction of an environment ends, and however often it is freed after, once at
  -- the least: if the library gave out a pointer, `keel_env_free` is called exactly once more than
  -- before, and that is the last call, with the pointer that `keel_env_create` gave; if it gave out
  -- none, `keel_env_free` is not called. The object then holds no pointer.
  pub free_times-make_env :
      (data_ptr : ℕ) (params : List (Text × F)) (calls : Trace F) (n : ℕ)
      → let created = lib.keel_env_create calls data_ptr in
        let (_, ptr, made) = make_env lib data_ptr params calls in
        let (held, after) = free_times (suc n) ptr made in
        (held ≡ 0)
        × (count is_free after ≡ count is_free calls + (if created == 0 then 0 else 1))
        × (after ≡ (if created == 0 then made else free_env created ∷ made))
  free_times-make_env data_ptr params calls n =
      let (_, ptr, made) = make_env lib data_ptr params calls in
      subst
        (λ p.
          ((free_times (suc n) ptr made).0 ≡ 0)
          × (count is_free (free_times (suc n) ptr made).1
              ≡ count is_free calls + (if p == 0 then 0 else 1))
          × ((free_times (suc n) ptr made).1 ≡ (if p == 0 then made else free_env p ∷ made)))
        (make_env-created data_ptr params calls)
        (free_times-count n ptr made (count is_free calls) (make_env-frees data_ptr params calls))
