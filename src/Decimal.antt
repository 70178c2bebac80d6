-- ===== src/Decimal.antt =====
-- Exact decimal values: the driver contract's `Number`, and the store's scaled 64-bit form of it.
pub mod Number
pub mod Scaled
pub mod Digits
pub mod Zeros
pub mod Canonical
pub mod Mantissa
pub mod RoundTrip
pub mod Exact
pub mod Required
pub mod Trim
pub mod Display
pub mod Parse
pub mod ParseDigits
pub mod ParseDisplay
pub mod Integers
pub mod IntegersBack
pub mod Order
pub mod OrderLaws
pub mod OrderDigits
pub mod OrderValues
