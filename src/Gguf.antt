-- ===== src/Gguf.antt =====
-- src/gguf.cpp, include/adi/gguf.hpp: the reader of the model container. The mapped file is the
-- list of its bytes; a cursor is a position in it. Opening, mapping and closing the file is left
-- to the operating system and stays outside.
pub mod Cursor
pub mod Types
pub mod Align
pub mod File
pub mod Query
