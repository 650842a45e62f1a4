-- ===== src/Server.antt =====
-- src/server.cpp and include/libuv_net/server.hpp: the server, its listening socket and its sessions.
pub mod Id
pub mod Calls
pub mod Defs
pub mod Lifecycle
pub mod Objects
pub mod Served
pub mod Sessions
pub mod Held
pub mod Sockets
pub mod Total
pub mod Sending
pub mod View
pub mod Delivery
pub mod Dispatch
pub mod Outbox
pub mod Relay
pub mod Answer
pub mod Closing
pub mod Listening
mod Tests
pub mod RelayTests
