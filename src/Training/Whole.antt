-- ===== src/Training/Whole.antt =====
-- models/rl/train.py: what a whole training run does to the simulator.
use Prim.Native.Nat.mul
use keel_trader.Base.{
  ℕ, zero, suc, ◌+◌, ◌*◌, ◌≡◌, ◌∙◌, refl, false, List, [], ◌∷◌, count, arith, Bool-cases, inl, inr,
  if◌then◌else◌, ◌==◌,
}
use keel_trader.Base.Text.{Text}
use keel_trader.Double.{Double}
use keel_trader.Outcome.{Result, ok, err, Gives, Result-cases}
use keel_trader.Simulator.{
  create_env, load_data, Trace, Library, is_known, set_param, set_params, make_env, free_object,
  load_market_data, free_market_data,
}
use keel_trader.Simulator.Drive.{TradingEnv, env_of, IsDriven}
use keel_trader.Training.Rollout.{
  Trainer, iteration, iterate, train_params, saved, finish, train_on, train,
}
use keel_trader.Training.Episodes.{is_step, is_free_data, collect_rollout-IsCollected}

module _ {F : Type 0} (lib : Library F) where
  -- So many steps more, each into an episode that ran, and no data freed.
  pub record Drives (steps : ℕ) (before after : Trace F) : Type 0 where
    pub driven : IsDriven lib after
    pub stepped : count is_step after ≡ count is_step before + steps
    pub freed : count is_free_data after ≡ count is_free_data before

  Drives-trans :
      (m n : ℕ) {k : ℕ} (s t u : Trace F) → m + n ≡ k → Drives m s t → Drives n t u → Drives k s u
  Drives-trans m n s t u e a b = record {
    driven = b.driven;
    stepped = omega (arith, a.stepped, b.stepped, e);
    freed = b.freed ∙ a.freed;
  }

  Drives-refl : (calls : Trace F) → IsDriven lib calls → Drives 0 calls calls
  Drives-refl calls h = record { driven = h; stepped = omega arith; freed = refl }

  set_param-Drives :
      (ptr : ℕ) (name : Text) (value : F) (calls : Trace F)
      → IsDriven lib calls
      → Drives 0 calls ((set_param lib ptr name value calls).1)
  unfolding set_param
  set_param-Drives ptr name value calls h = elim (Bool-cases (is_known name)) [
    | inl b ↦ rw (b, set_param) (record { driven = h; stepped = omega arith; freed = refl })
    | inr b ↦ rw (b, set_param) (Drives-refl calls h)
  ]

  set_params-Drives :
      (ptr : ℕ) (params : List (Text × F)) (calls : Trace F)
      → IsDriven lib calls
      → Drives 0 calls ((set_params lib ptr params calls).1)
  unfolding set_params
  set_params-Drives ptr [] calls h = Drives-refl calls h
  set_params-Drives ptr ((name, value) ∷ params) calls h =
      let first = set_param lib ptr name value calls in
      let a = set_param-Drives ptr name value calls h in
      elim (Result-cases (first.0)) [
        | inl (_, e) ↦ rw (e, set_params) a
        | inr (_, e) ↦
            let b = set_params-Drives ptr params (first.1) (a.driven) in
            rw (e, set_params)
              (Drives-trans 0 0 calls (first.1) ((set_params lib ptr params (first.1)).1) refl a b)
      ]

  make_env-Drives :
      (data_ptr : ℕ) (params : List (Text × F)) (calls : Trace F)
      → IsDriven lib calls
      → Drives 0 calls ((make_env lib data_ptr params calls).2)
  unfolding make_env
  make_env-Drives data_ptr params calls h =
      let ptr = lib.keel_env_create calls data_ptr in
      let next = create_env data_ptr ∷ calls in
      let created : Drives 0 calls next = record {
        driven = h;
        stepped = omega arith;
        freed = refl;
      } in
      let r = set_params lib ptr params next in
      let named =
        Drives-trans 0 0 calls next (r.1) refl created (set_params-Drives ptr params next h) in
      elim (Bool-cases (ptr == 0)) [
        | inl b ↦ rw (b, make_env) created
        | inr b ↦ elim (Result-cases (r.0)) [
          | inl (_, e) ↦ rw (b, e, make_env) named
          | inr (_, e) ↦
              rw (b, e, make_env)
                (record { driven = named.driven; stepped = named.stepped; freed = named.freed })
        ]
      ]

  -- How what trains ends: by an exception after some steps, or after all.
  abbrev pub Trains {ℓ} : {A : Type ℓ} → (steps : ℕ) → Trace F → Result A × Trace F → Type 0
  Trains steps before (err e, after) = (n : ℕ) × Drives n before after
  Trains steps before (ok net, after) = Drives steps before after

  Trains-after {ℓ} :
      {A : Type ℓ} (m n k : ℕ) (s t : Trace F) (r : Result A × Trace F)
      → m + n ≡ k
      → Drives m s t
      → Trains n t r
      → Trains k s r
  Trains-after m n k s t (err x, u) e a (l, b) = (m + l, Drives-trans m l s t u refl a b)
  Trains-after m n k s t (ok net, u) e a b = Drives-trans m n s t u e a b

module _ {F : Type 0} ⦃d : Double F⦄ (lib : Library F) (torch : Trainer F) where
  iteration-Drives :
      (env : TradingEnv) (rollout_steps it : ℕ) (net : torch.Net) (calls : Trace F)
      → IsDriven lib calls
      → Drives lib rollout_steps calls ((iteration lib torch env rollout_steps it net calls).1)
  unfolding iteration
  iteration-Drives env rollout_steps it net calls h =
      let c =
        collect_rollout-IsCollected lib torch env net rollout_steps (it * rollout_steps) calls h in
      record { driven = c.driven; stepped = c.stepped; freed = c.freed }

  iterate-Trains :
      (env : TradingEnv) (rollout_steps it left : ℕ) (net : torch.Net) (calls : Trace F)
      → IsDriven lib calls
      → Trains lib
          (left * rollout_steps)
          calls
          (iterate lib torch env rollout_steps it left net calls)
  unfolding iterate
  iterate-Trains env rollout_steps it zero net calls h = rw mul.zero (Drives-refl lib calls h)
  iterate-Trains env rollout_steps it (suc left) net calls h =
      let first = iteration lib torch env rollout_steps it net calls in
      let a = iteration-Drives env rollout_steps it net calls h in
      elim (Result-cases (first.0)) [
        | inl (_, e) ↦ rw (e, iterate) (rollout_steps, a)
        | inr (net', e) ↦
            let rest = iterate lib torch env rollout_steps (it + 1) left net' (first.1) in
            let steps : rollout_steps + left * rollout_steps ≡ suc left * rollout_steps =
              grind arith in
            rw (e, iterate)
              (Trains-after lib rollout_steps (left * rollout_steps) (suc left * rollout_steps)
                calls (first.1) rest steps a
                (iterate-Trains env rollout_steps (it + 1) left net' (first.1) (a.driven)))
      ]

  saved-Trains :
      (env : TradingEnv) (steps : ℕ) (before : Trace F) (net : torch.Net) (calls : Trace F)
      (r : Result {0} Unit)
      → Drives lib steps before calls
      → Trains lib steps before (saved lib torch env net calls r)
  unfolding free_object
  saved-Trains env steps before net calls (err e) h = (steps, h)
  saved-Trains env steps before net calls (ok _) h = elim (Bool-cases (env.ptr == 0)) [
    | inl b ↦ rw (b, free_object) h
    | inr b ↦
        rw (b, free_object) (record { driven = h.driven; stepped = h.stepped; freed = h.freed })
  ]

  finish-Trains :
      (env : TradingEnv) (steps : ℕ) (before : Trace F) (r : Result (torch.Net) × Trace F)
      → Trains lib steps before r
      → Trains lib steps before (finish lib torch env r)
  finish-Trains env steps before (err e, calls) h = h
  finish-Trains env steps before (ok net, calls) h =
      saved-Trains env steps before net calls (torch.save net) h

  train_on-Trains :
      (data_ptr iterations rollout_steps max_steps hidden : ℕ) (calls : Trace F)
      → IsDriven lib calls
      → Trains lib
          (iterations * rollout_steps)
          calls
          (train_on lib torch data_ptr iterations rollout_steps max_steps hidden calls)
  unfolding train_on
  train_on-Trains data_ptr iterations rollout_steps max_steps hidden calls h =
      let made = make_env lib data_ptr (train_params lib torch max_steps) calls in
      let a = make_env-Drives lib data_ptr (train_params lib torch max_steps) calls h in
      let env = env_of lib (made.1) (made.2) in
      let net = torch.init (env.obs_size) (env.num_actions) hidden in
      let ran = iterate lib torch env rollout_steps 0 iterations net (made.2) in
      elim (Result-cases (made.0)) [
        | inl (_, e) ↦ rw (e, train_on) (0, a)
        | inr (_, e) ↦
            rw (e, train_on)
              (Trains-after lib 0 (iterations * rollout_steps) (iterations * rollout_steps) calls
                (made.2) (finish lib torch env ran) (omega arith) a
                (finish-Trains env (iterations * rollout_steps) (made.2) ran
                  (iterate-Trains env rollout_steps 0 iterations net (made.2) (a.driven))))
      ]

  -- What `train` does to the simulator, from the calls before it to those after.
  abbrev pub IsTrained : (freed steps : ℕ) → Trace F → Result (torch.Net) × Trace F → Type 0
  IsTrained freed steps before r =
      IsDriven lib (r.1)
      × (count is_free_data (r.1) ≡ count is_free_data before + freed)
      × Gives (λ net. count is_step (r.1) ≡ count is_step before + steps) (r.0)

  freed-IsTrained :
      (data_ptr steps : ℕ) (before : Trace F) (r : Result (torch.Net) × Trace F)
      → (data_ptr == 0) ≡ false
      → Trains lib steps before r
      → IsTrained 1 steps before (r.0, (free_market_data data_ptr (r.1)).1)
  unfolding free_market_data
  freed-IsTrained data_ptr steps before (err e, after) b (n, h) =
      rw (b, free_market_data) (h.driven, omega (arith, h.freed), tt)
  freed-IsTrained data_ptr steps before (ok net, after) b h =
      rw (b, free_market_data) (h.driven, omega (arith, h.freed), h.stepped)

  -- However a training run ends, every step that it has made of the simulator found an episode
  -- that runs, one reset or stepped without ending just before; the data is freed exactly once if
  -- it was loaded, and not at all if not; and a run that returns has made just as many steps as
  -- its iterations have together.
  pub train-IsTrained :
      (data_path : Text) (iterations rollout_steps max_steps hidden : ℕ) (calls : Trace F)
      → IsDriven lib calls
      → IsTrained
          (if lib.keel_market_data_load calls data_path == 0 then 0 else 1)
          (iterations * rollout_steps)
          calls
          (train lib torch data_path iterations rollout_steps max_steps hidden calls)
  unfolding train load_market_data
  train-IsTrained data_path iterations rollout_steps max_steps hidden calls h =
      let data_ptr = lib.keel_market_data_load calls data_path in
      let next = load_data data_path ∷ calls in
      let loaded : Drives lib 0 calls next = record {
        driven = h;
        stepped = omega arith;
        freed = refl;
      } in
      let steps = iterations * rollout_steps in
      let ran = train_on lib torch data_ptr iterations rollout_steps max_steps hidden next in
      elim (Bool-cases (data_ptr == 0)) [
        | inl b ↦ rw (b, train, load_market_data) (h, omega arith, tt)
        | inr b ↦
            rw (b, train, load_market_data)
              (freed-IsTrained data_ptr steps calls ran b (
                Trains-after lib 0 steps steps calls next ran (omega arith) loaded
                  (train_on-Trains data_ptr iterations rollout_steps max_steps hidden next h)))
      ]
