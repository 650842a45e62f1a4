-- ===== src/ThreadPool.antt =====
-- include/libuv_net/thread_pool.hpp and src/thread_pool.cpp: worker threads over one queue of tasks.
--
-- Each step is one stretch of code that runs under `queue_mutex_`, one notification, or the end of
-- a task; steps of different threads interleave in any order.
pub mod Defs
pub mod Counts
pub mod Balance
pub mod Invariant
pub mod Shutdown
pub mod Futures
pub mod Results
mod Tests
