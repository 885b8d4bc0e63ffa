-- ===== src/Singleton.antt =====
-- core/alpaca_singleton.py: the live-writer singleton and the death-spiral guard.
pub mod State
pub mod Buys
pub mod Guard
pub mod Startup
pub mod Floor
pub mod Frame
pub mod Bypass
pub mod Live
pub mod Memory
pub mod Ledger
pub mod Pruned
pub mod Files
pub mod Match
pub mod Implements
pub mod Refines
