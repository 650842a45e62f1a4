-- ===== src/ThreadPool/Tests.antt =====
-- A pool of one worker that is given one task and shut down.
use libuv_net.Base.{
  ℕ, ◌+◌, ◌<◌, ◌≤◌, ◌≡◌, ◌≢◌, refl, true, false, some, none, ltb, if◌then◌else◌, [], length, sum_by,
  arith,
}
use libuv_net.ThreadPool.Defs.{
  Pool, size, new, submit, enqueue, push_task, take_task, check, finish, shut, notify_all,
  is_exited, is_awake, checks, enqueues, shuts, notifies_all, Reach, here, next,
}
use libuv_net.ThreadPool.Shutdown.{
  Turns, rechecks, turn, none_left, work_left, no_lost_wakeup, shutdown_ends,
}
use libuv_net.Base.Map.{lookup}
use libuv_net.ThreadPool.Futures.{
  Result, exception, Job, packaged, Futures, new_futures, submit_function, end_job, submits, ends,
  moves, Occurs, start, then_, is_future,
}
use libuv_net.ThreadPool.Results.{joined_futures}

abbrev queued : Pool ℕ
queued = enqueue 7 (new 1)

queued_reached : Reach 1 queued
queued_reached = next here (enqueues 7)

abbrev told : Pool ℕ
told = notify_all (shut queued)

told_reached : Reach 1 told
unfolding shut
told_reached = next (next queued_reached shuts) (notifies_all refl)

waiting : queued.tasks ≢ []
unfolding enqueue push_task new
waiting e = cc e

no_lost_wakeup_example : 0 < queued.owed + sum_by is_awake queued.workers
no_lost_wakeup_example = no_lost_wakeup queued_reached (omega arith) waiting

all_told : told.notified ≡ true
unfolding notify_all
all_told = refl

abbrev halfway : Pool ℕ
halfway = check 0 told

one-Turns : Turns 1 told halfway
unfolding notify_all shut enqueue push_task new
one-Turns = turn (rechecks 0 refl) none_left

shutdown_ends_example :
    (1 ≤ work_left told)
    × ((j : ℕ) × (s : Pool ℕ) × Turns j halfway s × (sum_by is_exited s.workers ≡ length s.workers))
shutdown_ends_example = shutdown_ends told_reached all_told one-Turns

-- The only function that is submitted throws.
abbrev fails : ℕ → Result ℕ
fails k = exception

abbrev given : Futures ℕ
given = record { pool = push_task (packaged 0) (new 1); made = 1; results = []; terminated = false }

given_occurs : Occurs fails 1 given
unfolding submit_function submit push_task new new_futures
given_occurs = then_ start refl (submits 0 refl)

abbrev in_pool : Futures ℕ → (Pool Job → Pool Job) → Futures ℕ
in_pool a f = record a { pool = f a.pool }

abbrev taken : Futures ℕ
taken = in_pool (in_pool (in_pool given shut) notify_all) (check 0)

taken_occurs : Occurs fails 1 taken
unfolding check take_task notify_all shut push_task new
taken_occurs =
    then_
      (then_ (then_ given_occurs refl (moves shuts refl refl)) refl
        (moves (notifies_all refl) refl refl))
      refl (moves (checks 0 refl) refl refl)

abbrev closed : Futures ℕ
closed = in_pool (end_job fails 0 (packaged 0) taken) (check 0)

closed_occurs : Occurs fails 1 closed
unfolding end_job finish check take_task notify_all shut push_task new
closed_occurs =
    then_ (then_ taken_occurs refl (ends 0 (packaged 0) refl)) refl
      (moves (checks 0 refl) refl refl)

all_returned : sum_by is_exited closed.pool.workers ≡ size closed.pool
unfolding end_job finish check take_task notify_all shut push_task new
all_returned = refl

joined_futures_example :
    (closed.pool.tasks ≡ [])
    × (closed.pool.started ≡ closed.pool.accepted)
    × ((f : Job → ℕ) → sum_by f closed.pool.finished ≡ sum_by f closed.pool.accepted)
    × (sum_by (is_future 0) closed.pool.finished ≡ (if ltb 0 closed.made then 1 else 0))
    × (lookup 0 closed.results ≡ (if ltb 0 closed.made then some (fails 0) else none))
    × (closed.terminated ≡ false)
joined_futures_example = joined_futures fails 0 closed_occurs (omega arith) all_returned
