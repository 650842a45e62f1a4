-- ===== src/ThreadPool/Invariant.antt =====
-- What holds of a pool in every reachable state, whatever the order of the threads.
use libuv_net.Base.{
  ℕ, ◌≤◌, zero, suc, ◌+◌, ◌-◌, ◌<◌, ◌≡◌, ◌≢◌, refl, sym, ap, subst, dec_lt, if◌then◌else◌, ◌∙◌,
  Bool, true, false, [], ◌∷◌, ◌++◌, some, length, get_elem?, set, sum_by, append_assoc,
  length-append, arith,
}
use libuv_net.Base.Outcome.{returns, throws}
use libuv_net.ThreadPool.Defs.{
  ready, asleep, exited, running, Pool, new, enqueue, submit, push_task, check, finish, shut,
  notify_all, is_asleep, is_exited, is_awake, is_running, Step, checks, wakes, finishes, enqueues,
  submits, notifies, notifies_none, shuts, notifies_all, Reach, here, next,
}
use libuv_net.ThreadPool.Counts.{sum_by-partition, sum_by-rouse, moved, check_cases}

new_counts :
    (T : Type 0) (n : ℕ)
    → (sum_by is_running (new {T = T} n).workers ≡ 0)
      × (length (new {T = T} n).workers ≡ n)
      × (sum_by is_exited (new {T = T} n).workers ≡ 0)
unfolding new
new_counts T zero = omega arith
new_counts T (suc n) = omega (arith, new_counts T n)

module _ {T : Type 0} where
  pub record Inv (n : ℕ) (p : Pool T) : Type 0 where
    -- Tasks are taken in the order in which they were accepted.
    pub fifo : p.accepted ≡ p.started ++ p.tasks
    -- A started task is running or done.
    pub busy : length p.started ≡ length p.finished + sum_by is_running p.workers
    pub size : length p.workers ≡ n
    -- While a task waits, a worker is awake or about to be told.
    pub noticed : p.tasks ≢ [] → 0 < n → 0 < p.owed + sum_by is_awake p.workers
    -- A worker returns only from a stopped pool with an empty queue, which stays so.
    pub over : 0 < sum_by is_exited p.workers → (p.stop ≡ true) × (p.tasks ≡ [])
    -- Once all have been told, nobody sleeps.
    pub told : p.notified ≡ true → (p.stop ≡ true) × (sum_by is_asleep p.workers ≡ 0)

  check-Inv :
      (n i : ℕ) (p : Pool T) → get_elem? p.workers i ≡ some ready → Inv n p → Inv n (check i p)
  check-Inv n i p e h =
      check_cases (Inv n) i p
        (λ s q.
          let m = moved p.workers i ready asleep e in
          record {
            fifo = h.fifo;
            busy = omega arith;
            size = omega arith;
            noticed = λ ne. absurd (ne q);
            over = λ k. h.over (omega arith);
            told = λ k. cc (s, (h.told k).0);
          })
        (λ s q.
          let m = moved p.workers i ready exited e in
          record {
            fifo = h.fifo;
            busy = omega arith;
            size = omega arith;
            noticed = λ ne. absurd (ne q);
            over = λ k. (s, q);
            told = λ k. (s, omega (arith, (h.told k).1));
          })
        (λ t rest q.
          let m = moved p.workers i ready (running t) e in
          record {
            fifo = h.fifo ∙ ap (◌++◌ p.started) q ∙ sym (append_assoc p.started (t ∷ []) rest);
            busy = omega (arith, length-append p.started (t ∷ []));
            size = omega arith;
            noticed = λ ne k. omega (arith, h.noticed (λ z. cc (z, q)) k);
            over = λ k. cc (q, (h.over (omega arith)).1);
            told = λ k. ((h.told k).0, omega (arith, (h.told k).1));
          })

  wake-Inv :
      (n i owed : ℕ) (p : Pool T)
      → get_elem? p.workers i ≡ some asleep
      → p.owed ≤ owed + 1
      → Inv n p
      → Inv n (record p { owed = owed; workers = set p.workers i ready })
  wake-Inv n i owed p e le h =
      let m = moved p.workers i asleep ready e in
      record {
        fifo = h.fifo;
        busy = omega arith;
        size = omega arith;
        noticed = λ ne k. omega arith;
        over = λ k. h.over (omega arith);
        told = λ k. ((h.told k).0, omega (arith, (h.told k).1));
      }

  finish-Inv :
      (n i : ℕ) (t : T) (p : Pool T)
      → get_elem? p.workers i ≡ some (running t)
      → Inv n p
      → Inv n (finish i t p)
  unfolding finish
  finish-Inv n i t p e h =
      let m = moved p.workers i (running t) ready e in
      record {
        fifo = h.fifo;
        busy = omega (arith, length-append p.finished (t ∷ []));
        size = omega arith;
        noticed = λ ne k. omega (arith, h.noticed ne k);
        over = λ k. h.over (omega arith);
        told = λ k. ((h.told k).0, omega (arith, (h.told k).1));
      }

  -- A task that a running pool takes in.
  push-Inv : (n : ℕ) (t : T) (p : Pool T) → p.stop ≡ false → Inv n p → Inv n (push_task t p)
  unfolding push_task
  push-Inv n t p running_pool h = record {
    fifo = ap (λ l. l ++ t ∷ []) h.fifo ∙ append_assoc p.started p.tasks (t ∷ []);
    busy = h.busy;
    size = h.size;
    noticed = λ ne k. omega arith;
    over = λ k. cc (running_pool, (h.over k).0);
    told = h.told;
  }

  enqueue_at :
      (stop : Bool) (n : ℕ) (t : T) (p : Pool T)
      → p.stop ≡ stop
      → Inv n p
      → Inv n (if stop then p else push_task t p)
  enqueue_at true n t p e h = h
  enqueue_at false n t p e h = push-Inv n t p e h

  enqueue-Inv : (n : ℕ) (t : T) (p : Pool T) → Inv n p → Inv n (enqueue t p)
  unfolding enqueue
  enqueue-Inv n t p h = enqueue_at p.stop n t p refl h

  submit_at :
      (stop : Bool) (n : ℕ) (t : T) (p q : Pool T)
      → p.stop ≡ stop
      → (if stop then throws else returns (push_task t p)) ≡ returns q
      → Inv n p
      → Inv n q
  submit_at true n t p q s e h = cc
  submit_at false n t p q s e h =
      let same : push_task t p ≡ q = cc in subst (Inv n) same (push-Inv n t p s h)

  submit-Inv : (n : ℕ) (t : T) (p q : Pool T) → submit t p ≡ returns q → Inv n p → Inv n q
  unfolding submit
  submit-Inv n t p q e h = submit_at p.stop n t p q refl e h

  notify_none-Inv :
      (n owed : ℕ) (p : Pool T)
      → sum_by is_asleep p.workers ≡ 0
      → Inv n p
      → Inv n (record p { owed = owed })
  notify_none-Inv n owed p nobody h = record {
    fifo = h.fifo;
    busy = h.busy;
    size = h.size;
    noticed = λ ne k. elim (dec_lt 0 (sum_by is_exited p.workers)) [
      | yes gone ↦ absurd (ne (h.over gone).1)
      | no all ↦ omega (arith, sum_by-partition p.workers, h.size)
    ];
    over = h.over;
    told = h.told;
  }

  shut-Inv : (n : ℕ) (p : Pool T) → Inv n p → Inv n (shut p)
  unfolding shut
  shut-Inv n p h = record {
    fifo = h.fifo;
    busy = h.busy;
    size = h.size;
    noticed = h.noticed;
    over = λ k. (refl, (h.over k).1);
    told = λ k. (refl, (h.told k).1);
  }

  notify_all-Inv : (n : ℕ) (p : Pool T) → p.stop ≡ true → Inv n p → Inv n (notify_all p)
  unfolding notify_all
  notify_all-Inv n p s h =
      let m = sum_by-rouse p.workers in
      record {
        fifo = h.fifo;
        busy = omega arith;
        size = omega arith;
        noticed = λ ne k. omega (arith, h.noticed ne k);
        over = λ k. h.over (omega arith);
        told = λ _. (s, m.asleep);
      }

  pub Step-Inv : (n : ℕ) {p q : Pool T} → Step p q → Inv n p → Inv n q
  Step-Inv n {p} (checks i e) h = check-Inv n i p e h
  Step-Inv n {p} (wakes i e) h = wake-Inv n i p.owed p e (omega arith) h
  Step-Inv n {p} (finishes i t e) h = finish-Inv n i t p e h
  Step-Inv n {p} (enqueues t) h = enqueue-Inv n t p h
  Step-Inv n {p} {q} (submits t e) h = submit-Inv n t p q e h
  Step-Inv n {p} (notifies i owed e) h = wake-Inv n i (p.owed - 1) p e (omega arith) h
  Step-Inv n {p} (notifies_none owed nobody) h = notify_none-Inv n (p.owed - 1) p nobody h
  Step-Inv n {p} shuts h = shut-Inv n p h
  Step-Inv n {p} (notifies_all s) h = notify_all-Inv n p s h

  new-Inv : (n : ℕ) → Inv n (new n)
  unfolding new
  new-Inv n = record {
    fifo = refl;
    busy = omega (arith, new_counts T n);
    size = omega (arith, new_counts T n);
    noticed = λ ne. absurd (ne refl);
    over = λ k. absurd (omega (arith, new_counts T n));
    told = λ k. cc;
  }

  pub Reach-Inv : {n : ℕ} {p : Pool T} → Reach n p → Inv n p
  Reach-Inv {n} here = new-Inv n
  Reach-Inv {n} (next r s) = Step-Inv n s (Reach-Inv r)
