-- ===== src/ThreadPool/Futures.antt =====
-- include/libuv_net/thread_pool.hpp: `submit` with its future, and src/thread_pool.cpp: what running a
-- task does.
use libuv_net.Base.{ℕ, suc, ◌≡◌, Bool, true, false, some, [], get_elem?, ◌==◌, if◌then◌else◌}
use libuv_net.Base.Outcome.{Outcome, returns, ◌>>=◌}
use libuv_net.Base.Map.{Map, insert}
use libuv_net.ThreadPool.Defs.{Pool, running, new, enqueue, submit, finish, Step}

-- How the call of a function ends.
pub data Result (R : Type 0) : Type 0 where
  value : R → Result R
  exception : Result R

-- A task of the queue: the wrapper that `submit` puts around a packaged task, named by its future,
-- or a function that `enqueue` got, which throws or does not.
pub data Job : Type 0 where
  packaged : (future : ℕ) → Job
  plain : (fails : Bool) → Job

-- Futures have the numbers in which they are made, and `results` has those that are ready.
-- `terminated` is whether an exception has left a thread, which ends the program.
pub record Futures (R : Type 0) : Type 0 where
  pub pool : Pool Job
  pub made : ℕ
  pub results : Map (Result R)
  pub terminated : Bool

module _ {R : Type 0} where
  unfoldable pub new_futures : ℕ → Futures R
  new_futures num_threads = record {
    pool = new num_threads;
    made = 0;
    results = [];
    terminated = false;
  }

  -- The future with the pool after the call. A pool that is stopped throws, and the future is gone.
  unfoldable pub submit_function : Futures R → Outcome (ℕ × Futures R)
  submit_function a = submit (packaged a.made) a.pool >>= λ p.
      returns (a.made, record a { pool = p; made = suc a.made })

  unfoldable pub enqueue_function : Bool → Futures R → Futures R
  enqueue_function fails a = record a { pool = enqueue (plain fails) a.pool }

-- `outcome` gives what the function of each accepted `submit` does when it is called.
module _ {R : Type 0} (outcome : ℕ → Result R) where
  -- The end of `task()` in worker `i`: a packaged task keeps what its function returns or throws for
  -- the future; an exception of any other task leaves the thread.
  unfoldable pub end_job : ℕ → Job → Futures R → Futures R
  end_job i (packaged k) a = record a {
    pool = finish i (packaged k) a.pool;
    results = insert k (outcome k) a.results;
  }
  end_job i (plain false) a = record a { pool = finish i (plain false) a.pool }
  end_job i (plain true) a = record a { terminated = true }

  -- `moves` is any step that neither accepts nor ends a task.
  pub data Act (a : Futures R) : Futures R → Type 0 where
    submits : (k : ℕ) {b : Futures R} → submit_function a ≡ returns (k, b) → Act a b
    enqueues : (fails : Bool) → Act a (enqueue_function fails a)
    ends : (i : ℕ) (j : Job) → get_elem? a.pool.workers i ≡ some (running j) → Act a (end_job i j a)
    moves :
        {q : Pool Job}
        → Step a.pool q
        → q.accepted ≡ a.pool.accepted
        → q.finished ≡ a.pool.finished
        → Act a (record a { pool = q })

  pub data Occurs (n : ℕ) : Futures R → Type 0 where
    start : Occurs n (new_futures n)
    then_ : {a b : Futures R} → Occurs n a → a.terminated ≡ false → Act a b → Occurs n b

-- How often a task stands for future `k`.
abbrev pub is_future : ℕ → Job → ℕ
is_future k (packaged j) = if j == k then 1 else 0
is_future k (plain fails) = 0

abbrev pub is_failing : Job → ℕ
is_failing (plain true) = 1
is_failing _ = 0
