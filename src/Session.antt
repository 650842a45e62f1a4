-- ===== src/Session.antt =====
-- include/libuv_net/session.hpp and src/session.cpp: one connection.
--
-- `Conn` holds the fields of the object but the read buffer, and what libuv holds for it; `Session`
-- adds the buffer. User code is called through a handler: its name, for the record, and the public
-- calls that it makes on its session, in order.
pub mod Defs
pub mod Receive
pub mod Refinement
pub mod Delivery
pub mod Lifecycle
pub mod Keeps
pub mod Steps
pub mod Requests
pub mod Closing
pub mod Heartbeat
pub mod Silence
pub mod Reads
pub mod Content
pub mod Robust
pub mod Total
pub mod Buffers
pub mod Bounds
mod ContentTests
mod Tests
mod MemoryTests
pub use Defs.*
pub use Receive.*
