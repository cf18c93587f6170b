-- ===== src/Parser.antt =====
-- The parser, src/parser: token outlines, the tree builder simulator, the syntax tables, the
-- macros that run them, the lexer, the tag scanner, and the parser that changes between the two.
pub mod Outline
pub mod Simulator
pub mod Syntax
pub mod Directive
pub mod Machine
pub mod Lexer
pub mod TagScanner
pub mod Driver
