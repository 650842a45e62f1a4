-- ===== src/ThreadPool/Shutdown.antt =====
-- The promises of the pool of src/thread_pool.cpp: the order of tasks, wake-ups, and the end.
use libuv_net.Base.{
  ℕ, ◌≤◌, zero, suc, ◌+◌, ◌*◌, ◌<◌, dec_lt, ◌≡◌, ◌≢◌, refl, sym, ap, ◌∙◌, true, List, [], ◌∷◌, ◌++◌,
  some, length, get_elem?, sum_by, sum_by-set, append-nil, arith,
}
use libuv_net.ThreadPool.Defs.{
  Worker, ready, asleep, exited, running, Pool, size, check, finish, is_asleep, is_exited, is_awake,
  is_running, Step, checks, finishes, Reach, next,
}
use libuv_net.ThreadPool.Counts.{sum_by-partition, check_cases}
use libuv_net.ThreadPool.Balance.{Reach-balance, at_work-exited}
use libuv_net.ThreadPool.Invariant.{Inv, Reach-Inv, Step-Inv}

running-le-awake : {T : Type 0} (ws : List (Worker T)) → sum_by is_running ws ≤ sum_by is_awake ws
running-le-awake [] = omega arith
running-le-awake (ready ∷ ws) = omega (arith, running-le-awake ws)
running-le-awake (asleep ∷ ws) = omega (arith, running-le-awake ws)
running-le-awake (exited ∷ ws) = omega (arith, running-le-awake ws)
running-le-awake (running t ∷ ws) = omega (arith, running-le-awake ws)

module _ {T : Type 0} {n : ℕ} {p : Pool T} (r : Reach n p) where
  -- Tasks start in the order in which they were accepted, none is lost and none starts twice; and
  -- those that have started and not ended are as many as the workers at work.
  pub started_in_order :
      (p.accepted ≡ p.started ++ p.tasks)
      × (length p.started ≡ length p.finished + sum_by is_running p.workers)
  started_in_order = ((Reach-Inv r).fifo, (Reach-Inv r).busy)

  -- No wake-up is lost: while a task waits in a pool that has workers, a worker is awake, or a
  -- notification is still to come.
  pub no_lost_wakeup : 0 < n → p.tasks ≢ [] → 0 < p.owed + sum_by is_awake p.workers
  no_lost_wakeup some_worker waits = (Reach-Inv r).noticed waits some_worker

  -- In a pool with at least one worker, when every worker has returned, which the destructor waits
  -- for, the queue is empty, the tasks that were accepted have all been started, in their order,
  -- and they are the ones that have ended: whatever number a task stands for, the sums agree.
  pub join_drains :
      0 < n
      → sum_by is_exited p.workers ≡ size p
      → (p.tasks ≡ [])
        × (p.started ≡ p.accepted)
        × ((f : T → ℕ) → sum_by f p.finished ≡ sum_by f p.accepted)
  join_drains some_worker joined =
      let h = Reach-Inv r in
      let empty = (h.over (omega (arith, h.size))).1 in
      let all = sym (h.fifo ∙ ap (◌++◌ p.started) empty ∙ append-nil p.started) in
      (
        empty,
        all,
        λ f.
            let balance = Reach-balance f r in
            let idle = at_work-exited f p.workers joined in
            omega (arith, balance, idle, ap (sum_by f) all),
      )

-- A worker that goes on by itself, without a wake-up.
pub data Turn {T : Type 0} (p : Pool T) : Pool T → Type 0 where
  rechecks : (i : ℕ) → get_elem? p.workers i ≡ some ready → Turn p (check i p)
  ends : (i : ℕ) (t : T) → get_elem? p.workers i ≡ some (running t) → Turn p (finish i t p)

pub data Turns {T : Type 0} : ℕ → Pool T → Pool T → Type 0 where
  none_left : {p : Pool T} → Turns zero p p
  turn : {k : ℕ} {p q s : Pool T} → Turn p q → Turns k q s → Turns (suc k) p s

abbrev weight : {T : Type 0} → Worker T → ℕ
weight ready = 1
weight (running t) = 2
weight _ = 0

-- Bounds the turns of a stopped pool.
abbrev pub work_left : {T : Type 0} → Pool T → ℕ
work_left p = 2 * length p.tasks + sum_by weight p.workers

module _ {T : Type 0} where
  Turn-Step : {p q : Pool T} → Turn p q → Step p q
  Turn-Step (rechecks i e) = checks i e
  Turn-Step (ends i t e) = finishes i t e

  -- What a turn of a stopped pool leaves.
  record Shrinks (p q : Pool T) : Type 0 where
    stop : q.stop ≡ true
    notified : q.notified ≡ p.notified
    less : work_left q < work_left p

  check-Shrinks :
      (i : ℕ) (p : Pool T)
      → p.stop ≡ true
      → get_elem? p.workers i ≡ some ready
      → Shrinks p (check i p)
  check-Shrinks i p s e =
      check_cases (Shrinks p) i p (λ k q. cc (s, k))
        (λ k q. record {
          stop = s;
          notified = refl;
          less = omega (arith, sum_by-set weight p.workers i ready exited e);
        })
        (λ t rest q. record {
          stop = s;
          notified = refl;
          less = omega (arith, sum_by-set weight p.workers i ready (running t) e, ap length q);
        })

  Turn-Shrinks : {p q : Pool T} → p.stop ≡ true → Turn p q → Shrinks p q
  unfolding finish
  Turn-Shrinks {p} s (rechecks i e) = check-Shrinks i p s e
  Turn-Shrinks {p} s (ends i t e) = record {
    stop = s;
    notified = refl;
    less = omega (arith, sum_by-set weight p.workers i (running t) ready e);
  }

  -- Once the pool is stopped its workers make no more turns than there is work left: 2 for each task
  -- in the queue, 2 for each task at work and 1 for each worker between tasks.
  pub Turns-bounded : (k : ℕ) {p q : Pool T} → p.stop ≡ true → Turns k p q → k ≤ work_left p
  Turns-bounded zero s t = omega arith
  Turns-bounded (suc k) s (turn x rest) =
      let h = Turn-Shrinks s x in omega (arith, h.less, Turns-bounded k h.stop rest)

  working :
      (ws : List (Worker T))
      → sum_by is_exited ws < length ws
      → (i : ℕ) × (w : Worker T) × (get_elem? ws i ≡ some w) × (is_exited w ≡ 0)
  working [] h = absurd (omega arith)
  working (ready ∷ ws) h = (0, ready, refl, refl)
  working (asleep ∷ ws) h = (0, asleep, refl, refl)
  working (running t ∷ ws) h = (0, running t, refl, refl)
  working (exited ∷ ws) h = let (i, w, e, k) = working ws (omega arith) in (suc i, w, e, k)

  sum_by-at :
      (f : Worker T → ℕ) (ws : List (Worker T)) (i : ℕ) (w : Worker T)
      → get_elem? ws i ≡ some w
      → f w ≤ sum_by f ws
  sum_by-at f [] i w e = absurd cc
  sum_by-at f (y ∷ ws) zero w e = let same : y ≡ w = cc in omega (arith, ap f same)
  sum_by-at f (y ∷ ws) (suc i) w e = omega (arith, sum_by-at f ws i w e)

  Turn-of :
      (p : Pool T) (i : ℕ) (w : Worker T)
      → get_elem? p.workers i ≡ some w
      → is_exited w ≡ 0
      → sum_by is_asleep p.workers ≡ 0
      → (q : Pool T) × Turn p q
  Turn-of p i ready e k none = (check i p, rechecks i e)
  Turn-of p i asleep e k none = absurd (omega (arith, sum_by-at is_asleep p.workers i asleep e))
  Turn-of p i exited e k none = absurd (omega arith)
  Turn-of p i (running t) e k none = (finish i t p, ends i t e)

  Ends : Pool T → Type 0
  Ends p = (k : ℕ) × (q : Pool T) × Turns k p q × (sum_by is_exited q.workers ≡ length q.workers)

  turns_end : (n fuel : ℕ) (p : Pool T) → Inv n p → p.notified ≡ true → work_left p ≤ fuel → Ends p
  unfolding Ends
  turns_end n zero p h told le = elim (dec_lt (sum_by is_exited p.workers) (length p.workers)) [
    | no full ↦ (0, p, none_left, omega (arith, sum_by-partition p.workers))
    | yes some_left ↦
        let (i, w, e, k) = working p.workers some_left in
        let (q, x) = Turn-of p i w e k (h.told told).1 in
        absurd (omega (arith, (Turn-Shrinks (h.told told).0 x).less))
  ]
  turns_end n (suc fuel) p h told le =
      elim (dec_lt (sum_by is_exited p.workers) (length p.workers)) [
        | no full ↦ (0, p, none_left, omega (arith, sum_by-partition p.workers))
        | yes some_left ↦
            let (i, w, e, k) = working p.workers some_left in
            let (q, x) = Turn-of p i w e k (h.told told).1 in
            let m = Turn-Shrinks (h.told told).0 x in
            let (j, s, rest, all) =
              turns_end n fuel q (Step-Inv n (Turn-Step x) h) (m.notified ∙ told)
                (omega (arith, m.less)) in
            (suc j, s, turn x rest, all)
      ]

  -- From every reachable state in which the destructor has told all workers, some turns of the
  -- workers alone, with no further wake-up, lead to a state in which every worker has returned.
  pub workers_return :
      {n : ℕ} {p : Pool T}
      → Reach n p
      → p.notified ≡ true
      → (k : ℕ) × (q : Pool T) × Turns k p q × (sum_by is_exited q.workers ≡ length q.workers)
  unfolding Ends
  workers_return {n} {p} r told = turns_end n (work_left p) p (Reach-Inv r) told (omega arith)

Turns-Reach :
    {T : Type 0} {n : ℕ} (k : ℕ) {p q : Pool T}
    → Reach n p
    → p.stop ≡ true
    → Turns k p q
    → Reach n q × (q.notified ≡ p.notified)
Turns-Reach zero r s none_left = (r, refl)
Turns-Reach (suc k) r s (turn x rest) =
    let h = Turn-Shrinks s x in
    let (later, same) = Turns-Reach k (next r (Turn-Step x)) h.stop rest in
    (later, same ∙ h.notified)

-- From every reachable state in which the destructor has told all workers, whatever turns the
-- workers make, with no further wake-up, they are no more than 2 for each task in the queue, 2 for
-- each task at work and 1 for each worker between tasks; and some more turns lead to a state in
-- which every worker has returned.
pub shutdown_ends :
    {T : Type 0} {n k : ℕ} {p q : Pool T}
    → Reach n p
    → p.notified ≡ true
    → Turns k p q
    → (k ≤ work_left p)
      × ((j : ℕ) × (s : Pool T) × Turns j q s × (sum_by is_exited s.workers ≡ length s.workers))
shutdown_ends {n} {k} r told ts =
    let stopped = ((Reach-Inv r).told told).0 in
    let (later, same) = Turns-Reach k r stopped ts in
    (Turns-bounded k stopped ts, workers_return later (same ∙ told))
