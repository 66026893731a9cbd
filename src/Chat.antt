-- ===== src/Chat.antt =====
-- src/chat.cpp, src/chat.hpp: the prompt that a conversation becomes. Text is a byte string.
pub mod Text
pub mod Prompt
