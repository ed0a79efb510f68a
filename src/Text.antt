-- ===== src/Text.antt =====
-- What the program uses of Go's `strings` and `strconv`.
pub mod Split
pub mod Decimal
pub mod Trim
pub mod Utf8
pub mod Search
