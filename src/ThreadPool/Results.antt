-- ===== src/ThreadPool/Results.antt =====
-- The futures of include/libuv_net/thread_pool.hpp: when they are ready, and with what.
use libuv_net.Base.{
  ℕ, zero, suc, ◌≤◌, ◌<◌, ◌≡◌, refl, subst, ap, ◌∙◌, Bool, true, false, none, some, List, [], ◌∷◌,
  ◌⊎◌, inl, inr, get_elem?, sum_by, ltb, if◌then◌else◌, Bool-cases, arith,
}
use libuv_net.Base.Outcome.{Outcome, returns, throws}
use libuv_net.Base.Map.{lookup, lookup-insert}
use libuv_net.ThreadPool.Defs.{
  Pool, size, running, new, enqueue, submit, push_task, finish, is_exited, submits, enqueues,
  finishes, Reach, here, next,
}
use libuv_net.ThreadPool.Balance.{sum_by-snoc, at_work, at_work-exited}
use libuv_net.ThreadPool.Shutdown.{join_drains}
use libuv_net.ThreadPool.Futures as F
use libuv_net.ThreadPool.Futures.{
  Result, Job, packaged, plain, Futures, new_futures, submit_function, enqueue_function, end_job,
  Act, ends, moves, Occurs, start, then_, is_future, is_failing,
}

elem-le :
    {T : Type 0} (f : T → ℕ) (xs : List T) (i : ℕ) (x : T)
    → get_elem? xs i ≡ some x
    → f x ≤ sum_by f xs
elem-le f [] i x e = cc
elem-le f (y ∷ xs) zero x e = let same : y ≡ x = cc in omega (arith, ap f same)
elem-le f (y ∷ xs) (suc i) x e = omega (arith, elem-le f xs i x e)

submit_cases :
    {T : Type 0} (t : T) (p : Pool T)
    → (submit t p ≡ throws) ⊎ (submit t p ≡ returns (push_task t p))
unfolding submit
submit_cases t p = elim (Bool-cases p.stop) [ inl e ↦ inl (rw e refl) | inr e ↦ inr (rw e refl) ]

module _ {R : Type 0} (outcome : ℕ → Result R) where
  record IsKept (n : ℕ) (a : Futures R) : Type 0 where
    reach : Reach n a.pool
    -- Each future has one task, and the next number has none.
    numbered : (k : ℕ) → sum_by (is_future k) a.pool.accepted ≡ (if ltb k a.made then 1 else 0)
    -- A future is ready once its task has ended.
    ready :
        (k : ℕ)
        → lookup k a.results
          ≡ (if ltb 0 (sum_by (is_future k) a.pool.finished) then some (outcome k) else none)
    -- The thread that has let an exception out stays where it was.
    failed : a.terminated ≡ true → 0 < sum_by (at_work is_failing) a.pool.workers

  push-IsKept :
      (n : ℕ) (a : Futures R)
      → a.terminated ≡ false
      → Reach n (push_task (packaged a.made) a.pool)
      → IsKept n a
      → IsKept n (record a { pool = push_task (packaged a.made) a.pool; made = suc a.made })
  unfolding push_task
  push-IsKept n a live r h = record {
    reach = r;
    numbered = λ k.
        ground (arith, h.numbered k, sum_by-snoc (is_future k) a.pool.accepted (packaged a.made));
    ready = h.ready;
    failed = λ t. cc (live, t);
  }

  submit-IsKept :
      (n k : ℕ) (a b : Futures R)
      → a.terminated ≡ false
      → submit_function a ≡ returns (k, b)
      → IsKept n a
      → IsKept n b
  unfolding submit_function
  submit-IsKept n k a b live e h = elim (submit_cases (packaged a.made) a.pool) [
    | inl gone ↦ absurd (cc (rw gone at e))
    | inr taken ↦
        let pushed = push_task (packaged a.made) a.pool in
        let same : record a { pool = pushed; made = suc a.made } ≡ b =
          ap (λ (m : Outcome (ℕ × Futures R)). elim m [ returns x ↦ x.1 | _ ↦ a ])
            (rw taken at e) in
        subst (IsKept n) same
          (push-IsKept n a live (next h.reach (submits (packaged a.made) taken)) h)
  ]

  enqueue-IsKept :
      (n : ℕ) (fails : Bool) (a : Futures R)
      → a.terminated ≡ false
      → IsKept n a
      → IsKept n (enqueue_function fails a)
  unfolding enqueue_function enqueue push_task
  enqueue-IsKept n fails a live h = record {
    reach = next h.reach (enqueues (plain fails));
    numbered =
        λ k. ground (arith, h.numbered k, sum_by-snoc (is_future k) a.pool.accepted (plain fails));
    ready = λ k. ground (arith, h.ready k);
    failed = λ t. cc (live, t);
  }

  end-IsKept :
      (n i : ℕ) (j : Job) (a : Futures R)
      → a.terminated ≡ false
      → get_elem? a.pool.workers i ≡ some (running j)
      → IsKept n a
      → IsKept n (end_job outcome i j a)
  unfolding end_job finish
  end-IsKept n i (packaged j) a live e h = record {
    reach = next h.reach (finishes i (packaged j) e);
    numbered = h.numbered;
    ready = λ k. ground (
      arith,
      h.ready k,
      lookup-insert j k (outcome j) a.results,
      sum_by-snoc (is_future k) a.pool.finished (packaged j),
    );
    failed = λ t. cc (live, t);
  }
  end-IsKept n i (plain false) a live e h = record {
    reach = next h.reach (finishes i (plain false) e);
    numbered = h.numbered;
    ready = λ k. ground (arith, h.ready k, sum_by-snoc (is_future k) a.pool.finished (plain false));
    failed = λ t. cc (live, t);
  }
  end-IsKept n i (plain true) a live e h = record {
    reach = h.reach;
    numbered = h.numbered;
    ready = h.ready;
    failed = λ t. omega (arith, elem-le (at_work is_failing) a.pool.workers i _ e);
  }

  Act-IsKept :
      (n : ℕ) {a b : Futures R} → a.terminated ≡ false → Act outcome a b → IsKept n a → IsKept n b
  Act-IsKept n {a} {b} live (F.submits k e) h = submit-IsKept n k a b live e h
  Act-IsKept n {a} live (F.enqueues fails) h = enqueue-IsKept n fails a live h
  Act-IsKept n {a} live (ends i j e) h = end-IsKept n i j a live e h
  Act-IsKept n {a} live (moves {q} s same old) h = record {
    reach = next h.reach s;
    numbered = λ k. rw same (h.numbered k);
    ready = λ k. rw old (h.ready k);
    failed = λ t. cc (live, t);
  }

  Occurs-IsKept : {n : ℕ} {a : Futures R} → Occurs outcome n a → IsKept n a
  unfolding new_futures new lookup
  Occurs-IsKept {n} start = record {
    reach = here;
    numbered = λ k. ground arith;
    ready = λ k. refl;
    failed = λ t. cc t;
  }
  Occurs-IsKept {n} (then_ o live x) = Act-IsKept n live x (Occurs-IsKept o)

  -- However the threads and the calls of `submit` and `enqueue` follow each other in a pool with at
  -- least one worker: when every worker has returned, which the destructor waits for, the queue is
  -- empty, the tasks have been started in the order in which they were accepted, and the same ones
  -- have ended; each future that `submit` has given is ready, with the value or the exception of its
  -- function, whose task has run once; there is no other future; and no exception has left a thread.
  pub joined_futures :
      {n : ℕ} {a : Futures R} (k : ℕ)
      → Occurs outcome n a
      → 0 < n
      → sum_by is_exited a.pool.workers ≡ size a.pool
      → (a.pool.tasks ≡ [])
        × (a.pool.started ≡ a.pool.accepted)
        × ((f : Job → ℕ) → sum_by f a.pool.finished ≡ sum_by f a.pool.accepted)
        × (sum_by (is_future k) a.pool.finished ≡ (if ltb k a.made then 1 else 0))
        × (lookup k a.results ≡ (if ltb k a.made then some (outcome k) else none))
        × (a.terminated ≡ false)
  joined_futures {n} {a} k o some_worker joined =
      let h = Occurs-IsKept o in
      let (empty, all, done) = join_drains h.reach some_worker joined in
      let count = done (is_future k) ∙ h.numbered k in
      (
        empty,
        all,
        done,
        count,
        ground (arith, h.ready k, count),
        elim (Bool-cases a.terminated) [
          | inl e ↦
              absurd (omega (arith, h.failed e, at_work-exited is_failing a.pool.workers joined))
          | inr e ↦ e
        ],
      )
