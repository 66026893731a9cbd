-- ===== src/Json.antt =====
-- src/json.cpp, include/adi/json.hpp: JSON values, the parser and the printer.
pub mod Value
pub mod Lexer
pub mod Parser
pub mod Printer
pub mod Reads
pub mod Escapes
