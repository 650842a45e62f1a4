-- ===== src/Programs.antt =====
-- tests/client_test.cpp and tests/server_test.cpp: a client and a server for the terminal.
pub mod Hex
pub mod Defs
pub mod Entry
pub mod Ending
pub mod Server
pub mod Talk
pub mod Rounds
pub mod Dialogue
mod Tests
mod DialogueTests
