-- ===== src/ThreadPool/Balance.antt =====
-- What the pool of src/thread_pool.cpp has taken against what it has done, task by task: whatever
-- number a task stands for, the sums agree.
use libuv_net.Base.{
  ℕ, zero, suc, ◌+◌, ◌≡◌, refl, List, [], ◌∷◌, ◌++◌, map, some, get_elem?, length, ◌≤◌, sum_by,
  sum_by-set, arith,
}
use libuv_net.Base.Outcome.{returns}
use libuv_net.ThreadPool.Defs.{
  Worker, ready, asleep, exited, running, Pool, new, enqueue, submit, push_task, check, finish,
  shut, rouse, notify_all, is_exited, Step, checks, wakes, finishes, enqueues, submits, notifies,
  notifies_none, shuts, notifies_all, Reach, here, next,
}
use libuv_net.ThreadPool.Counts.{check_cases}

pub sum_by-snoc :
    {T : Type 0} (f : T → ℕ) (xs : List T) (x : T) → sum_by f (xs ++ x ∷ []) ≡ sum_by f xs + f x
sum_by-snoc f [] x = omega arith
sum_by-snoc f (y ∷ xs) x = omega (arith, sum_by-snoc f xs x)

exited-le : {T : Type 0} (ws : List (Worker T)) → sum_by is_exited ws ≤ length ws
exited-le [] = omega arith
exited-le (ready ∷ ws) = omega (arith, exited-le ws)
exited-le (asleep ∷ ws) = omega (arith, exited-le ws)
exited-le (exited ∷ ws) = omega (arith, exited-le ws)
exited-le (running t ∷ ws) = omega (arith, exited-le ws)

module _ {T : Type 0} (f : T → ℕ) where
  abbrev pub at_work : Worker T → ℕ
  at_work (running t) = f t
  at_work _ = 0

  abbrev IsBalanced : Pool T → Type 0
  IsBalanced p = sum_by f p.started ≡ sum_by f p.finished + sum_by at_work p.workers

  sum_by-rouse-at_work : (ws : List (Worker T)) → sum_by at_work (map rouse ws) ≡ sum_by at_work ws
  sum_by-rouse-at_work [] = refl
  sum_by-rouse-at_work (ready ∷ ws) = omega (arith, sum_by-rouse-at_work ws)
  sum_by-rouse-at_work (asleep ∷ ws) = omega (arith, sum_by-rouse-at_work ws)
  sum_by-rouse-at_work (exited ∷ ws) = omega (arith, sum_by-rouse-at_work ws)
  sum_by-rouse-at_work (running t ∷ ws) = omega (arith, sum_by-rouse-at_work ws)

  check-IsBalanced :
      (i : ℕ) (p : Pool T)
      → get_elem? p.workers i ≡ some ready
      → IsBalanced p
      → IsBalanced (check i p)
  check-IsBalanced i p e h =
      check_cases IsBalanced i p
        (λ s q. omega (arith, h, sum_by-set at_work p.workers i ready asleep e))
        (λ s q. omega (arith, h, sum_by-set at_work p.workers i ready exited e))
        (λ t rest q.
          omega (
            arith,
            h,
            sum_by-set at_work p.workers i ready (running t) e,
            sum_by-snoc f p.started t,
          ))

  enqueue-IsBalanced : (t : T) (p : Pool T) → IsBalanced p → IsBalanced (enqueue t p)
  unfolding enqueue push_task
  enqueue-IsBalanced t p h = ground (arith, h)

  submit-IsBalanced : (t : T) (p q : Pool T) → submit t p ≡ returns q → IsBalanced p → IsBalanced q
  unfolding submit push_task
  submit-IsBalanced t p q e h = ground (arith, e, h)

  Step-IsBalanced : {p q : Pool T} → Step p q → IsBalanced p → IsBalanced q
  unfolding finish shut notify_all
  Step-IsBalanced {p} (checks i e) h = check-IsBalanced i p e h
  Step-IsBalanced {p} (wakes i e) h =
      omega (arith, h, sum_by-set at_work p.workers i asleep ready e)
  Step-IsBalanced {p} (finishes i t e) h =
      omega
        (arith, h, sum_by-set at_work p.workers i (running t) ready e, sum_by-snoc f p.finished t)
  Step-IsBalanced {p} (enqueues t) h = enqueue-IsBalanced t p h
  Step-IsBalanced {p} {q} (submits t e) h = submit-IsBalanced t p q e h
  Step-IsBalanced {p} (notifies i owed e) h =
      omega (arith, h, sum_by-set at_work p.workers i asleep ready e)
  Step-IsBalanced {p} (notifies_none owed nobody) h = h
  Step-IsBalanced {p} shuts h = h
  Step-IsBalanced {p} (notifies_all s) h = omega (arith, h, sum_by-rouse-at_work p.workers)

  nobody_at_work : (n : ℕ) → sum_by at_work (new {T = T} n).workers ≡ 0
  unfolding new
  nobody_at_work zero = refl
  nobody_at_work (suc n) = omega (arith, nobody_at_work n)

  -- In every reachable state, the tasks that have started are those that have ended and those that
  -- the workers run.
  pub Reach-balance :
      {n : ℕ} {p : Pool T}
      → Reach n p
      → sum_by f p.started ≡ sum_by f p.finished + sum_by at_work p.workers
  unfolding new
  Reach-balance {n} here = omega (arith, nobody_at_work n)
  Reach-balance (next r s) = Step-IsBalanced s (Reach-balance r)

  pub at_work-exited :
      (ws : List (Worker T)) → sum_by is_exited ws ≡ length ws → sum_by at_work ws ≡ 0
  at_work-exited [] h = refl
  at_work-exited (exited ∷ ws) h = omega (arith, at_work-exited ws (omega arith))
  at_work-exited (ready ∷ ws) h = absurd (omega (arith, exited-le ws))
  at_work-exited (asleep ∷ ws) h = absurd (omega (arith, exited-le ws))
  at_work-exited (running t ∷ ws) h = absurd (omega (arith, exited-le ws))
