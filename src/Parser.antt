-- ===== src/Parser.antt =====
-- src/parser.py: reading a request from the client's socket, and parsing it.
pub mod Url
pub mod Receive
pub mod Request
