-- ===== src/Double.antt =====
-- Python's `float`: any type with the constants and operations that the program uses, and the
-- comparisons, which go by `<=` (for IEEE numbers `x < y` is `x <= y` without `y <= x`, and
-- `x == y` is both; NaN is the value that is not `<=` itself). Arithmetic is left abstract, so
-- that nothing proved here rests on exact sums or products. `Double.Fixed` is a concrete instance.
pub mod Fixed
pub mod Defs
pub mod Order
pub mod Rank
pub use Defs.*
