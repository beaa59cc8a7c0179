-- ===== src/Engine/Parser.antt =====
-- internal/engine/parser: the lexer and the parser.
pub mod Token
pub mod Keywords
pub mod Lexer
pub mod Syntax
pub mod Iota
pub mod Stream
pub mod Grammar
pub mod Progress
pub mod Precedence
mod Tests
