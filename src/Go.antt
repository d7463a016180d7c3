-- ===== src/Go.antt =====
-- What the program uses of Go's standard library: `strings`, `regexp`, `time`, `unicode/utf8`,
-- `sort`.
pub mod Strings
pub mod Regexp
pub mod Decimal
pub mod Time
pub mod Utf8
pub mod Sort
pub mod Search
