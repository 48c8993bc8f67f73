-- ===== src/BigNumber.antt =====
-- The interface of ethers' `BigNumber`, a package that the utilities use and do not implement. Its
-- values are integers of any size. `IsBigNumber` states the documented meaning of each method that
-- they call: exact sums, products and powers, division that rounds towards zero, a remainder that
-- is never negative, the decimal text, a throw on a zero divisor and on a modulus that is not positive.
pub mod Decimal
mod Interface
mod Reference
pub use Interface.*
pub use Reference.{reference}
pub use Reference.{reference-IsBigNumber, eq_reference}
