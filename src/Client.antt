-- ===== src/Client.antt =====
-- include/libuv_net/client.hpp and src/client.cpp: the connecting side.
--
-- `Link` holds the fields of the object but the receive buffer, and what libuv holds for it;
-- `Client` adds the buffer. Handlers are as in `Session`.
pub mod Defs
pub mod Callbacks
pub mod Receive
pub mod Refinement
pub mod Lifecycle
pub mod Keeps
pub mod Steps
pub mod Requests
pub mod Connection
pub mod Transitions
pub mod Heartbeat
pub mod Robust
pub mod Total
pub mod Bounds
mod Tests
mod MemoryTests
