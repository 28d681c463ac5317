-- ===== src/Lexer.antt =====
-- src/lexer.c: from source text to tokens.
pub mod Token
pub mod Keyword
pub mod Scan
mod Tests
