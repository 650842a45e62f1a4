-- ===== src/Lib.antt =====
-- The networking library libuv_net: packets with a binary header, sessions of a server, a client,
-- interceptors for the content of packets, and a pool of threads; with a wrapper for Qt and four
-- programs that use it.
--
-- The parts and their files:
-- - Packet (include/libuv_net/message.hpp): `Packet`, `PacketHeader`, `PacketType`, with
--   `serialize` and `deserialize`. A byte is a number and memory a list of bytes. The header is
--   copied as it lies in memory, so the byte order and the padding are a parameter, `Abi`.
-- - Framing: what both ends promise of a byte stream, a split into packets and a rest, apart from
--   the loops that do it. It models no code. Session.Refinement and Client.Refinement compare the
--   loops with it, through Framing.Loop and Framing.Chunks, which they share.
-- - Interceptor (include/libuv_net/message.hpp, json_interceptor.hpp, protobuf_interceptor.hpp):
--   the interface, its manager and the two interceptors. The JSON and the Protobuf library are
--   parameters.
-- - Uv: what is called outside the program, which is libuv, the clock, `new` and `delete`, and the
--   handlers of users. Each call is an event in a history, newest first; what a call returns is a
--   function of the history, a field of the record `Uv`, of which nothing is assumed.
-- - Session (src/session.cpp, include/libuv_net/session.hpp): Session.Defs has the state and the
--   operations that do not read packets, Session.Receive the path from a read to a handler, and
--   Session.Lifecycle the callbacks and public calls as steps. `Conn` is the object without its
--   read buffer, which the calls of the handlers leave alone. Session.Keeps and Session.Steps carry
--   a property of `Conn` through all steps. Session.Reads is a read that brings one whole packet,
--   and Session.Buffers what the read buffer keeps.
-- - Client (src/client.cpp, include/libuv_net/client.hpp): the same, with `Link` for the object
--   without its buffer; Client.Callbacks has the callbacks that call the handlers of its user.
-- - Server (src/server.cpp, include/libuv_net/server.hpp): Server.Calls has the handlers,
--   Server.Defs the state and the operations, Server.Id the ids of sessions, Server.Lifecycle the
--   steps and the reachable states.
--   `on_connection` gives each session a closure for its packets and one for its end. The first is a
--   handler under a name of its own: before a callback, `refreshed` puts the tables of the server of
--   that moment into it, where it stands. The second runs where `on_close` has just called it.
--   Sessions stand at addresses in a memory, from which nothing is removed, since the closures of a
--   session keep it alive; the list `sessions_` holds addresses. A session has a history of its own.
--   What a handler of the server sends to sessions other than its own waits in `outbox` and is done
--   when the callback has ended. Server.Held carries a property of all sessions through all steps.
--   Server.View is what is seen of the sessions apart from the order of the list; Server.Answer is
--   about a handler that answers on its own session.
-- - Exchange: both ends together, and in Exchange.Relay two clients and the server between them; it
--   models no code.
-- - EventLoop (src/client.cpp, src/server.cpp): `start`, `stop` and the thread that runs the loop,
--   which are the same code in both classes, as steps of two threads: the owner's and the loop's.
--   EventLoop.Flags compares them with `start` and `stop` of Client.Defs and Server.Defs.
-- - ThreadPool (src/thread_pool.cpp, include/libuv_net/thread_pool.hpp): the pool as a relation
--   between states, one step of one thread at a time: the code under the lock, a wake-up, a
--   notification. A worker that waits may also wake by itself. ThreadPool.Futures adds what
--   `submit` puts around its function, with the future, and what an exception of a task does.
-- - Qt (qt_wrapper/src/qt_client.cpp, qt_wrapper/src/qt_server.cpp, with their headers, and
--   example/mainwindow.cpp): `QtClient`, `QtServer` and `MainWindow`, each over ends that are
--   parameters, since the calls do not fit the classes that stand in the repository. A signal is
--   queued, oldest first.
-- - Console (example/test_console.cpp): the two packet handlers, with what they print as lines, and
--   in Console.Main `main`, whose two ends are parameters for the same reason.
-- - Programs (tests/client_test.cpp, tests/server_test.cpp): a client and a server for a terminal,
--   over the Client and the Server above. Programs.Defs has the client program: its handlers, the
--   beginning and the end of `main`, and each round of its loop as the lines that the user types,
--   mixed with the callbacks of the client in any order. Programs.Hex reads what is typed as bytes,
--   Programs.Server is the server program, and Programs.Dialogue puts both together, with
--   Programs.Rounds for what the network does. What the handlers log is computed from the history.
-- - Base has hexadecimal digits, lists, maps, Boolean tests and `Outcome`, a result that may be an
--   exception; Samples has the values that the tests use.
--
-- A handler of a user is a name and the calls that it makes, which run as soon as it is called: the
-- handlers of a session call `send`, `stop` and `close`, those of a client `send`, `connect` and
-- `disconnect`, those of a server all that a session has, `broadcast` and `send_to`. A handler of
-- packets or of reads then returns, throws or never returns, as its field `ends` says; an exception
-- leaves the callback, and what was done before it is not seen any more, as the program ends. An
-- empty `std::function` that was set for a type is a handler without calls that throws. The other
-- handlers return. Callbacks run one at a time, as they do on the thread of the loop. The runs of a
-- session and of a client begin with the handlers and interceptors of a `Setup`.
--
-- The read loops run on fuel, a round for each byte of the buffer and one more. A round takes
-- twelve bytes at least, so the fuel never runs out; the value `stuck` would stand for that, and
-- does stand for a handler that never returns.
--
-- Not modelled: handlers that feed bytes to a session (`append_to_buffer`) or set handlers or
-- interceptors on it, on a client or on a server; exceptions of the handlers of connection, of
-- its end and of `alloc_callback_`; handlers that start or stop a server, apart from EventLoop;
-- logging, but for the lines of the handlers in Programs; calls of other threads that run beside
-- a callback, and their data races; the lifetime of buffers handed to libuv; the layout of the
-- window; and `main` in example/main.cpp, which only shows the window.
mod Base
mod Samples
pub mod Packet
pub mod Framing
pub mod Uv
pub mod Interceptor
pub mod Session
pub mod Client
pub mod Server
pub mod Exchange
pub mod EventLoop
pub mod ThreadPool
pub mod Qt
pub mod Console
pub mod Programs
