-- ===== src/EventLoop.antt =====
-- src/client.cpp and src/server.cpp: `start` and `stop`, and the thread that runs the loop.
--
-- The two classes have the same code. One thread calls `start` and `stop`, and handlers, which run
-- on the thread of the loop, may call them as well.
pub mod Defs
pub mod Stop
pub mod Flags
mod Tests
