-- ===== src/Json.antt =====
-- projects/nanosrv/json.cpp: values are found in a text by a path, without a tree being built.
pub mod Lexer
pub mod Syntax
pub mod Get
pub mod Next
pub mod Strings
mod Examples
