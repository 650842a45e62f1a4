-- ===== src/ThreadPool/Defs.antt =====
-- src/thread_pool.cpp and include/libuv_net/thread_pool.hpp: state and steps.
use libuv_net.Base.{
  ℕ, zero, suc, ◌-◌, ◌<◌, ◌≡◌, Bool, true, false, not, ◌&&◌, ◌||◌, List, [], ◌∷◌, ◌++◌, map, some,
  length, get_elem?, set, sum_by, if◌then◌else◌,
}
use libuv_net.Base.Outcome.{Outcome, returns, throws}

-- Where a worker stands: about to test the predicate of `condition_.wait`, blocked in it, in
-- `task()`, or returned.
pub data Worker (T : Type 0) : Type 0 where
  ready asleep exited : Worker T
  running : T → Worker T

-- `owed` counts the calls of `notify_one` that are still to come, each after the lock has been let
-- go. `accepted`, `started` and `finished` are no fields of the class: they record the tasks that
-- were queued, taken and done, oldest first, and `notified` whether the destructor has notified all.
pub record Pool (T : Type 0) : Type 0 where
  pub tasks : List T
  pub stop : Bool
  pub workers : List (Worker T)
  pub owed : ℕ
  pub notified : Bool
  pub accepted : List T
  pub started : List T
  pub finished : List T

module _ {T : Type 0} where
  abbrev pub is_empty : List T → Bool
  is_empty [] = true
  is_empty (x ∷ xs) = false

  abbrev replicate : ℕ → Worker T → List (Worker T)
  replicate zero w = []
  replicate (suc n) w = w ∷ replicate n w

  -- `ThreadPool(num_threads)`
  unfoldable pub new : ℕ → Pool T
  new num_threads = record {
    tasks = [];
    stop = false;
    workers = replicate num_threads ready;
    owed = 0;
    notified = false;
    accepted = [];
    started = [];
    finished = [];
  }

  -- `emplace` at the back of the queue; the notification is still to come.
  unfoldable pub push_task : T → Pool T → Pool T
  push_task t p = record p {
    tasks = p.tasks ++ t ∷ [];
    accepted = p.accepted ++ t ∷ [];
    owed = suc p.owed;
  }

  -- A stopped pool only logs an error.
  unfoldable pub enqueue : T → Pool T → Pool T
  unfolding push_task
  enqueue t p = if p.stop then p else push_task t p

  unfoldable pub submit : T → Pool T → Outcome (Pool T)
  unfolding push_task
  submit t p = if p.stop then throws else returns (push_task t p)

  -- `front` and `pop`, by worker `i`; never reached with an empty queue.
  unfoldable pub take_task : List T → ℕ → Pool T → Pool T
  take_task [] i p = p
  take_task (t ∷ rest) i p = record p {
    tasks = rest;
    workers = set p.workers i (running t);
    started = p.started ++ t ∷ [];
  }

  -- What worker `i` does under the lock: the predicate of the wait, the test for the end, the pop.
  unfoldable pub check : ℕ → Pool T → Pool T
  unfolding take_task
  check i p =
      if not (p.stop || not (is_empty p.tasks))
      then record p { workers = set p.workers i asleep }
      else if p.stop && is_empty p.tasks
      then record p { workers = set p.workers i exited }
      else take_task p.tasks i p

  unfoldable pub finish : ℕ → T → Pool T → Pool T
  finish i t p = record p { workers = set p.workers i ready; finished = p.finished ++ t ∷ [] }

  -- The first block of `~ThreadPool`
  unfoldable pub shut : Pool T → Pool T
  shut p = record p { stop = true }

  abbrev pub rouse : Worker T → Worker T
  rouse asleep = ready
  rouse w = w

  unfoldable pub notify_all : Pool T → Pool T
  notify_all p = record p { workers = map rouse p.workers; notified = true }

  abbrev pub size : Pool T → ℕ
  size p = length p.workers

  unfoldable pub is_stopped : Pool T → Bool
  is_stopped p = p.stop

  abbrev pub is_asleep : Worker T → ℕ
  is_asleep asleep = 1
  is_asleep _ = 0

  abbrev pub is_exited : Worker T → ℕ
  is_exited exited = 1
  is_exited _ = 0

  abbrev pub is_awake : Worker T → ℕ
  is_awake ready = 1
  is_awake (running t) = 1
  is_awake _ = 0

  abbrev pub is_running : Worker T → ℕ
  is_running (running t) = 1
  is_running _ = 0

  -- One step of one thread. A blocked worker may also wake by itself.
  pub data Step (p : Pool T) : Pool T → Type 0 where
    checks : (i : ℕ) → get_elem? p.workers i ≡ some ready → Step p (check i p)
    wakes :
        (i : ℕ)
        → get_elem? p.workers i ≡ some asleep
        → Step p (record p { workers = set p.workers i ready })
    finishes : (i : ℕ) (t : T) → get_elem? p.workers i ≡ some (running t) → Step p (finish i t p)
    enqueues : (t : T) → Step p (enqueue t p)
    submits : (t : T) {q : Pool T} → submit t p ≡ returns q → Step p q
    notifies :
        (i : ℕ)
        → 0 < p.owed
        → get_elem? p.workers i ≡ some asleep
        → Step p (record p { owed = p.owed - 1; workers = set p.workers i ready })
    notifies_none :
        0 < p.owed → sum_by is_asleep p.workers ≡ 0 → Step p (record p { owed = p.owed - 1 })
    shuts : Step p (shut p)
    notifies_all : p.stop ≡ true → Step p (notify_all p)

  pub data Reach (n : ℕ) : Pool T → Type 0 where
    here : Reach n (new n)
    next : {p q : Pool T} → Reach n p → Step p q → Reach n q
