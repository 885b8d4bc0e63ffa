-- ===== src/Tests.antt =====
-- Runs of the model on concrete inputs, and each theorem at an input that meets its hypotheses.
mod Samples
mod Locks
mod Orders
mod Ledger
mod Judges
mod Plans
mod Forward
mod Studies
mod Models
mod Modes
mod Files
mod Actions
mod Bars
mod Forecasts
mod Pointers
mod Builds
mod Trainers
mod Exports
