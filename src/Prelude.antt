-- ===== src/Prelude.antt =====
-- The names that the modules share: Boolean tests, lists over the native numbers, Python's
-- exceptions as values.
pub mod Tests
pub mod Lists
pub mod Slices
pub mod Result
pub mod Order
pub mod Text
