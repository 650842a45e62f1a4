-- ===== src/ThreadPool/Counts.antt =====
-- How many workers are where, and what the steps do to these numbers.
use libuv_net.Base.{
  ℕ, zero, suc, ◌+◌, ◌≡◌, refl, ap, Bool, true, false, List, [], ◌∷◌, ◌++◌, map, some, length,
  get_elem?, set, sum_by, sum_by-set, arith,
}
use libuv_net.ThreadPool.Defs.{
  Worker, ready, asleep, exited, running, Pool, check, is_asleep, is_exited, is_awake, is_running,
  rouse,
}

module _ {T : Type 0} where
  pub sum_by-partition :
      (ws : List (Worker T))
      → sum_by is_awake ws + sum_by is_asleep ws + sum_by is_exited ws ≡ length ws
  sum_by-partition [] = refl
  sum_by-partition (ready ∷ ws) = omega (arith, sum_by-partition ws)
  sum_by-partition (asleep ∷ ws) = omega (arith, sum_by-partition ws)
  sum_by-partition (exited ∷ ws) = omega (arith, sum_by-partition ws)
  sum_by-partition (running t ∷ ws) = omega (arith, sum_by-partition ws)

  pub length-set : (ws : List (Worker T)) (i : ℕ) (w : Worker T) → length (set ws i w) ≡ length ws
  length-set [] i w = refl
  length-set (x ∷ ws) zero w = refl
  length-set (x ∷ ws) (suc i) w = ap suc (length-set ws i w)

  pub record Roused (ws : List (Worker T)) : Type 0 where
    pub awake : sum_by is_awake (map rouse ws) ≡ sum_by is_awake ws + sum_by is_asleep ws
    pub asleep : sum_by is_asleep (map rouse ws) ≡ 0
    pub exited : sum_by is_exited (map rouse ws) ≡ sum_by is_exited ws
    pub running : sum_by is_running (map rouse ws) ≡ sum_by is_running ws
    pub size : length (map rouse ws) ≡ length ws

  pub sum_by-rouse : (ws : List (Worker T)) → Roused ws
  sum_by-rouse [] = omega arith
  sum_by-rouse (ready ∷ ws) = let h = sum_by-rouse ws in omega arith
  sum_by-rouse (Worker.asleep ∷ ws) = let h = sum_by-rouse ws in omega arith
  sum_by-rouse (Worker.exited ∷ ws) = let h = sum_by-rouse ws in omega arith
  sum_by-rouse (Worker.running t ∷ ws) = let h = sum_by-rouse ws in omega arith

  -- All the numbers after worker `i` has gone from `v` to `w`.
  pub record Moved (ws : List (Worker T)) (i : ℕ) (v w : Worker T) : Type 0 where
    pub awake : sum_by is_awake (set ws i w) + is_awake v ≡ sum_by is_awake ws + is_awake w
    pub asleep : sum_by is_asleep (set ws i w) + is_asleep v ≡ sum_by is_asleep ws + is_asleep w
    pub exited : sum_by is_exited (set ws i w) + is_exited v ≡ sum_by is_exited ws + is_exited w
    pub running :
        sum_by is_running (set ws i w) + is_running v ≡ sum_by is_running ws + is_running w
    pub size : length (set ws i w) ≡ length ws

  pub moved :
      (ws : List (Worker T)) (i : ℕ) (v w : Worker T) → get_elem? ws i ≡ some v → Moved ws i v w
  moved ws i v w e = record {
    awake = sum_by-set is_awake ws i v w e;
    asleep = sum_by-set is_asleep ws i v w e;
    exited = sum_by-set is_exited ws i v w e;
    running = sum_by-set is_running ws i v w e;
    size = length-set ws i w;
  }

  -- The three ends of a round under the lock, by the flag and the queue.
  round_end : Bool → List T → ℕ → Pool T → Pool T
  round_end stop (t ∷ rest) i p = record p {
    tasks = rest;
    workers = set p.workers i (Worker.running t);
    started = p.started ++ t ∷ [];
  }
  round_end true [] i p = record p { workers = set p.workers i Worker.exited }
  round_end false [] i p = record p { workers = set p.workers i Worker.asleep }

  check-round_end : (i : ℕ) (p : Pool T) → check i p ≡ round_end p.stop p.tasks i p
  unfolding check round_end
  check-round_end i p = ground arith

  round_end_cases :
      (P : Pool T → Type 0) (i : ℕ) (p : Pool T) (stop : Bool) (tasks : List T)
      → (stop ≡ false → tasks ≡ [] → P (record p { workers = set p.workers i Worker.asleep }))
      → (stop ≡ true → tasks ≡ [] → P (record p { workers = set p.workers i Worker.exited }))
      → ((t : T) (rest : List T)
          → tasks ≡ t ∷ rest
          → P (record p {
            tasks = rest;
            workers = set p.workers i (Worker.running t);
            started = p.started ++ t ∷ [];
          }))
      → P (round_end stop tasks i p)
  unfolding round_end
  round_end_cases P i p stop (t ∷ rest) sleeps exits takes = takes t rest refl
  round_end_cases P i p true [] sleeps exits takes = exits refl refl
  round_end_cases P i p false [] sleeps exits takes = sleeps refl refl

  pub check_cases :
      (P : Pool T → Type 0) (i : ℕ) (p : Pool T)
      → (p.stop ≡ false → p.tasks ≡ [] → P (record p { workers = set p.workers i Worker.asleep }))
      → (p.stop ≡ true → p.tasks ≡ [] → P (record p { workers = set p.workers i Worker.exited }))
      → ((t : T) (rest : List T)
          → p.tasks ≡ t ∷ rest
          → P (record p {
            tasks = rest;
            workers = set p.workers i (Worker.running t);
            started = p.started ++ t ∷ [];
          }))
      → P (check i p)
  check_cases P i p sleeps exits takes =
      rw check-round_end (round_end_cases P i p p.stop p.tasks sleeps exits takes)
