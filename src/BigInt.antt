-- ===== src/BigInt.antt =====
-- cyarg/big-int: integers of any size in sign and magnitude, over 16-bit digits.
pub mod Digits
pub mod Layout
pub mod Compare
pub mod Sum
pub mod Words
pub mod Shift
pub mod Product
pub mod Tests
