-- ===== src/Parser.antt =====
-- src/parser_json/parser_json.cpp: from the mnemonics of a program to instruction words.
pub mod Encode
pub mod Text
pub mod Program
pub mod Assemble
