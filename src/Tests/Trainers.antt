-- ===== src/Tests/Trainers.antt =====
-- Two market files that differ at their last time only, and a rollout over a small library.
use keel_trader.Base.{ℕ, ◌+◌, ◌≡◌, refl, List, [], ◌∷◌, map, length}
use keel_trader.Base.Int.{pos}
use keel_trader.Base.Text.{codes}
use keel_trader.Double.Fixed.{Fixed, num, fixed_double}
use keel_trader.Outcome.{ok}
use keel_trader.MarketBin.{
  Header, read_symbols, read_features, read_prices, read_block, write_market_bin, read_names,
  read_header, pack_header, pack_name, pack_block, pack_row, pack_cell,
}
use keel_trader.MarketBin.Fields.{Bytes, pack_floats, unpack_floats, pack_u32, unpack_u32}
use keel_trader.MarketBin.Blocks.{Row}
use keel_trader.Training.Labels.{
  Classifier, Params, sample_at, samples, boundary, build_dataset, train,
}
use keel_trader.Training.NoPeek.{IsSameBefore, train-IsSameBefore}
use keel_trader.Gate.Offsets.{generate_offsets}
use keel_trader.Policy.{compute_gae}
use keel_trader.Simulator.{
  make_env, set_params, set_param, is_known, load_market_data, free_market_data, free_object,
}
use keel_trader.Simulator.Drive.{step, reset}
use keel_trader.Training.Rollout.{
  Trainer, train as train_policy, train_on, iterate, iteration, collect_rollout, rollout,
}
use keel_trader.Training.Whole.{IsTrained, train-IsTrained}
use keel_trader.Tests.Pointers.{small}
use keel_trader.Tests.Builds.{codec, value_of}
use keel_trader.Tests.Studies.{lowest}
use keel_trader.Tests.Samples.{whole, btc}

abbrev features : List (Row Fixed)
features = ((whole 1 ∷ []) ∷ []) ∷ ((whole 2 ∷ []) ∷ []) ∷ ((whole 3 ∷ []) ∷ []) ∷ []

-- A bar at one price.
abbrev flat : ℕ → Row Fixed
flat p = (whole p ∷ whole p ∷ whole p ∷ whole p ∷ whole 0 ∷ []) ∷ []

abbrev prices : ℕ → List (Row Fixed)
prices last = flat 10 ∷ flat 12 ∷ flat last ∷ []

abbrev file : ℕ → Bytes
unfolding write_market_bin pack_header pack_name pack_block pack_row pack_cell pack_floats pack_u32
file last = value_of [] (write_market_bin codec (btc ∷ []) features (prices last) 3 1 1)

abbrev header : Header
header = record {
  version = 1;
  num_symbols = 1;
  num_timesteps = 3;
  features_per_sym = 1;
  price_features = 5;
}

agree : IsSameBefore codec header 2 (file 5) (file 40)
unfolding file read_header read_symbols read_names read_features read_prices read_block
    unpack_floats unpack_u32 write_market_bin pack_header pack_name pack_block pack_row pack_cell
    pack_floats pack_u32
agree = record {
  names = btc ∷ [];
  feats = features;
  feats' = features;
  prices = prices 5;
  prices' = prices 40;
  header_lem = refl;
  header_lem' = refl;
  names_lem = refl;
  names_lem' = refl;
  feats_lem = refl;
  feats_lem' = refl;
  prices_lem = refl;
  prices_lem' = refl;
  same_feats = refl;
  same_prices = refl;
}

-- A classifier that predicts what is up for all.
abbrev ups : Classifier Fixed
ups = record {
  Fitted = ℕ;
  fit = λ params data_set. length data_set;
  predict = λ model xs. map (λ x. 1) xs;
  model_text = λ model. codes "m";
}

abbrev params : Params Fixed
params = record { n_estimators = 200; max_depth = 4; learning_rate = num (pos 5_000_000) }

abbrev two_thirds : Fixed
two_thirds = num (pos 67_000_000)

cut : boundary 3 two_thirds ≡ ok 2
unfolding boundary
cut = refl

train-IsSameBefore_example :
    train ups codec (file 5) 1 two_thirds params ≡ train ups codec (file 40) 1 two_thirds params
train-IsSameBefore_example =
    train-IsSameBefore ups codec (file 5) (file 40) header 2 1 two_thirds params agree cut

-- The one sample of the training part is that of the first time, which goes up.
labelled : build_dataset codec (file 5) 1 (whole 0) two_thirds ≡ ok ((whole 1 ∷ [], 1) ∷ [])
unfolding build_dataset samples sample_at boundary file read_header read_features read_prices
    read_block unpack_floats unpack_u32 write_market_bin pack_header pack_name pack_block pack_row
    pack_cell pack_floats pack_u32
labelled = refl

-- Of 101 times, the first seven tenths are 70, and a window of ten steps from that fraction of the
-- offsets starts at 63, within them.
trained_until : boundary 101 (num (pos 70_000_000)) ≡ ok 70
unfolding boundary
trained_until = refl

judged_from : generate_offsets lowest 101 2 10 (num (pos 70_000_000)) (whole 1) ≡ ok (63 ∷ 63 ∷ [])
unfolding generate_offsets
judged_from = refl

-- A policy that always takes the first action, over a network that has nothing to learn.
abbrev torch : Trainer Fixed
torch = record {
  Net = ℕ;
  init = λ obs_size num_actions hidden. obs_size;
  forward = λ net obs. (obs, whole 0);
  sample = λ draw logits. 0;
  log_prob = λ logits action. whole 0;
  ppo_update = λ it net batch adv returns. ok (net + length batch);
  save = λ net. ok tt;
}

trained : (train_policy (small whole) torch btc 2 3 720 64 []).0 ≡ ok 8
unfolding train_policy train_on make_env set_params set_param is_known iterate iteration
    collect_rollout rollout step reset load_market_data free_market_data free_object compute_gae
trained = refl

train-IsTrained_example :
    IsTrained (small whole) torch 1 6 [] (train_policy (small whole) torch btc 2 3 720 64 [])
train-IsTrained_example = train-IsTrained (small whole) torch btc 2 3 720 64 [] tt
