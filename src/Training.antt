-- ===== src/Training.antt =====
-- The trainers: models/xgb/train.py in Labels and models/rl/train.py in Rollout. What xgboost and
-- torch do is a parameter.
pub mod Labels
pub mod NoPeek
pub mod Rollout
pub mod Episodes
pub mod Whole
