-- ===== src/Base.antt =====
-- Names that every module shares: those of the libraries, passed on, Boolean tests on native
-- numbers, texts, integers and lists.
pub mod Tests
pub mod Texts
pub mod Lists
pub mod Integers
pub mod Decimal
