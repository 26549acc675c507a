-- ===== src/Num.antt =====
-- Python's numbers. A `Decimal` of the price data is concrete. A `float` is any type with the
-- operations below: IEEE doubles, or the fixed-point numbers of the child module in tests.
mod Decimals
mod Floats
mod Order
pub mod Fixed
pub use Decimals.*
pub use Floats.*
pub use Order.*
