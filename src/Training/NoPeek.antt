-- ===== src/Training/NoPeek.antt =====
-- models/xgb/train.py: what a trained artifact depends on.
use keel_trader.Base.{
  ℕ, zero, suc, ◌+◌, ◌-◌, ◌<◌, ◌≡◌, refl, List, [], ◌∷◌, map, range, flat_map, get_elem?, take, All,
  All-append, All-of-map, range-lt, arith,
}
use keel_trader.Base.Text.{Text}
use keel_trader.Double.{Double}
use keel_trader.Outcome.{Result, ok, each}
use keel_trader.MarketBin.{Header, read_header, read_features, read_prices, read_symbols}
use keel_trader.MarketBin.Fields.{Bytes, FloatCodec}
use keel_trader.Training.Labels.{
  Block, places, sample_at, samples, boundary, build_dataset, Params, Classifier, train,
}

get_elem?-take {ℓ} :
    {A : Type ℓ} (n i : ℕ) (xs ys : List A)
    → take n xs ≡ take n ys
    → i < n
    → get_elem? xs i ≡ get_elem? ys i
get_elem?-take zero i xs ys e h = elim h [ ]
get_elem?-take (suc n) i [] [] e h = refl
get_elem?-take (suc n) i [] (y ∷ ys) e h = ground arith
get_elem?-take (suc n) i (x ∷ xs) [] e h = ground arith
get_elem?-take (suc n) zero (x ∷ xs) (y ∷ ys) e h = ground arith
get_elem?-take (suc n) (suc i) (x ∷ xs) (y ∷ ys) e h =
    get_elem?-take n i xs ys (ground arith) (omega (arith, h))

each-All {ℓ κ} :
    {A : Type ℓ} {B : Type κ} (P : A → Type 0) (f g : A → Result B)
    → ((x : A) → P x → f x ≡ g x)
    → (xs : List A) → All P xs
    → each f xs ≡ each g xs
each-All P f g h [] p = refl
each-All P f g h (x ∷ xs) (p, ps) = rw (h x p, each-All P f g h xs ps)

-- A sample is taken so early that its future close is before the boundary.
abbrev IsEarly : (t_max horizon : ℕ) → ℕ × ℕ → Type 0
IsEarly t_max horizon (t, s) = t + horizon < t_max

flat_map-IsEarly :
    (t_max horizon num_symbols : ℕ) (ts : List ℕ)
    → All (λ t. t < t_max - horizon) ts
    → All (IsEarly t_max horizon) (flat_map (λ t. map (λ s. (t, s)) (range num_symbols)) ts)
flat_map-IsEarly t_max horizon num_symbols [] h = tt
flat_map-IsEarly t_max horizon num_symbols (t ∷ ts) (h, hs) =
    All-append (IsEarly t_max horizon) (map (λ s. (t, s)) (range num_symbols))
      (flat_map (λ t. map (λ s. (t, s)) (range num_symbols)) ts)
      (All-of-map (IsEarly t_max horizon) (λ s. s < num_symbols) (λ s. (t, s)) (range num_symbols)
        (λ s _. omega (arith, h)) (range-lt num_symbols))
      (flat_map-IsEarly t_max horizon num_symbols ts hs)

module _ {F : Type 0} ⦃d : Double F⦄ where
  sample_at-take :
      (feats feats' prices prices' : Block F) (horizon t_max : ℕ) (up_threshold : F)
      → take t_max feats ≡ take t_max feats'
      → take t_max prices ≡ take t_max prices'
      → (place : ℕ × ℕ) → IsEarly t_max horizon place
      → sample_at feats prices horizon up_threshold place
        ≡ sample_at feats' prices' horizon up_threshold place
  unfolding sample_at
  sample_at-take feats feats' prices prices' horizon t_max up_threshold f p (t, s) h = rw (
    get_elem?-take t_max t feats feats' f (omega (arith, h)),
    get_elem?-take t_max t prices prices' p (omega (arith, h)),
    get_elem?-take t_max (t + horizon) prices prices' p h,
    sample_at,
  )

  samples-take :
      (feats feats' prices prices' : Block F) (num_symbols t_max horizon : ℕ) (up_threshold : F)
      → take t_max feats ≡ take t_max feats'
      → take t_max prices ≡ take t_max prices'
      → samples feats prices num_symbols t_max horizon up_threshold
        ≡ samples feats' prices' num_symbols t_max horizon up_threshold
  unfolding samples
  samples-take feats feats' prices prices' num_symbols t_max horizon up_threshold f p = rw (
    each-All (IsEarly t_max horizon) (sample_at feats prices horizon up_threshold)
        (sample_at feats' prices' horizon up_threshold)
        (sample_at-take feats feats' prices prices' horizon t_max up_threshold f p)
        (places (t_max - horizon) num_symbols)
        (flat_map-IsEarly t_max horizon num_symbols (range (t_max - horizon))
          (range-lt (t_max - horizon))),
    samples,
  )

-- Two market files of one header and the same symbols, whose features and prices agree at all times
-- before the boundary `t_max` of the training part.
pub record IsSameBefore {F : Type 0} (codec : FloatCodec F) (header : Header) (t_max : ℕ)
    (file file' : Bytes) : Type 0 where
  pub names : List Text
  pub feats : Block F
  pub feats' : Block F
  pub prices : Block F
  pub prices' : Block F
  pub header_lem : read_header file ≡ ok header
  pub header_lem' : read_header file' ≡ ok header
  pub names_lem : read_symbols file ≡ ok names
  pub names_lem' : read_symbols file' ≡ ok names
  pub feats_lem : read_features codec file ≡ ok feats
  pub feats_lem' : read_features codec file' ≡ ok feats'
  pub prices_lem : read_prices codec file ≡ ok prices
  pub prices_lem' : read_prices codec file' ≡ ok prices'
  pub same_feats : take t_max feats ≡ take t_max feats'
  pub same_prices : take t_max prices ≡ take t_max prices'

module _ {F : Type 0} ⦃d : Double F⦄ (xgb : Classifier F) (codec : FloatCodec F) where
  build_dataset-IsSameBefore :
      (file file' : Bytes) (header : Header) (t_max horizon : ℕ) (up_threshold train_frac : F)
      (same : IsSameBefore codec header t_max file file')
      → boundary (header.num_timesteps) train_frac ≡ ok t_max
      → build_dataset codec file horizon up_threshold train_frac
        ≡ build_dataset codec file' horizon up_threshold train_frac
  unfolding build_dataset
  build_dataset-IsSameBefore file file' header t_max horizon up_threshold train_frac same e =
      let kept =
        samples-take (same.feats) (same.feats') (same.prices) (same.prices') (header.num_symbols)
          t_max horizon up_threshold (same.same_feats) (same.same_prices) in
      rw
        (
          same.feats_lem, same.feats_lem', same.prices_lem, same.prices_lem', same.header_lem,
          same.header_lem', e, build_dataset,
        )
        kept

  -- Training looks at nothing past the boundary of its part of the data, a label's future close
  -- included: two market files of the same header and symbols whose features and prices agree at
  -- all times before `int(T * train_frac)` give the same artifact or the same exception, whatever
  -- the later times hold.
  pub train-IsSameBefore :
      (file file' : Bytes) (header : Header) (t_max horizon : ℕ) (train_frac : F)
      (params : Params F) (same : IsSameBefore codec header t_max file file')
      → boundary (header.num_timesteps) train_frac ≡ ok t_max
      → train xgb codec file horizon train_frac params
        ≡ train xgb codec file' horizon train_frac params
  unfolding train
  train-IsSameBefore file file' header t_max horizon train_frac params same e = rw (
    build_dataset-IsSameBefore file file' header t_max horizon (d.nought) train_frac same e,
    same.names_lem,
    same.names_lem',
    train,
  )
