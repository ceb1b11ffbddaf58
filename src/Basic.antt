-- ===== src/Basic.antt =====
-- The BASIC interpreter, src/basic.
pub mod Lexer
pub mod Syntax
pub mod Parser
pub mod Format
pub mod Utf8
pub mod Text
pub mod Value
pub mod Eval
pub mod Interpreter
pub mod Program
mod Examples
