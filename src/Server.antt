-- ===== src/Server.antt =====
-- src/server.cpp: the requests of the server.
pub mod Messages
pub mod Request
pub mod Receive
