-- ===== src/Scanner.antt =====
-- cyarg/scanner.c and scanner.h: the lexical scanner.
pub mod Kinds
pub mod Chars
pub mod Keywords
pub mod Messages
pub mod Tokens
pub mod Tests
