-- ===== src/EventLoop/Stop.antt =====
-- src/client.cpp and src/server.cpp: `stop` returns, and no `uv_run` begins after it has told the
-- thread of the loop.
use libuv_net.Base.{ℕ, zero, suc, ◌+◌, ◌≤◌, ◌≡◌, refl, sym, ap, ◌∙◌, true, false, List, arith}
use libuv_net.Base.Outcome.{throws}
use libuv_net.EventLoop.Defs.{
  Thread, new, absent, testing, polling, sleeping, ended, EventLoop, is_joinable, start,
  request_stop, join, stop_inside, test, Turn, tests, polls, sleeps, Op, Reach, here, begins,
  ignores, requests, joins, turns, handler_starts, handler_stops,
}

pub data Turns : ℕ → EventLoop → EventLoop → Type 0 where
  none_left : {l : EventLoop} → Turns zero l l
  turn : {k : ℕ} {l m n : EventLoop} → Turn l m → Turns k m n → Turns (suc k) l n

-- The turns that a thread that has been told can still make.
abbrev turns_left : Thread → ℕ
turns_left absent = 0
turns_left testing = 1
turns_left polling = 3
turns_left sleeping = 2
turns_left ended = 0

-- An owner that waits has told the thread, and there is one.
pub record IsTold (l : EventLoop) : Type 0 where
  pub told : l.should_stop ≡ true
  pub present : is_joinable l.thread ≡ true

-- What a turn of a thread that has been told leaves.
record Winds (l m : EventLoop) : Type 0 where
  is_told : IsTold m
  rounds : m.rounds ≡ l.rounds
  fewer : turns_left l.thread ≡ suc (turns_left m.thread)

Turn-Winds : {l m : EventLoop} → l.should_stop ≡ true → Turn l m → Winds l m
unfolding test
Turn-Winds s (tests e) = record {
  is_told = record { told = ground arith; present = ground arith };
  rounds = ground arith;
  fewer = ground arith;
}
Turn-Winds s (polls e) = record {
  is_told = record { told = s; present = refl };
  rounds = refl;
  fewer = ap turns_left e;
}
Turn-Winds s (sleeps e) = record {
  is_told = record { told = s; present = refl };
  rounds = refl;
  fewer = ap turns_left e;
}

pub Turn-joining : {l m : EventLoop} → Turn l m → m.joining ≡ l.joining
unfolding test
Turn-joining (tests e) = ground arith
Turn-joining (polls e) = refl
Turn-joining (sleeps e) = refl

pub Turn-joinable : {l m : EventLoop} → Turn l m → is_joinable m.thread ≡ is_joinable l.thread
unfolding test
Turn-joinable (tests e) = ground arith
Turn-joinable (polls e) = sym (ap is_joinable e)
Turn-joinable (sleeps e) = sym (ap is_joinable e)

pub Turn-should_stop : {l m : EventLoop} → Turn l m → m.should_stop ≡ l.should_stop
unfolding test
Turn-should_stop (tests e) = ground arith
Turn-should_stop (polls e) = refl
Turn-should_stop (sleeps e) = refl

start-joining : (l : EventLoop) → (start l).1.joining ≡ l.joining
unfolding start
start-joining l = ground arith

-- `start` leaves a loop that has a thread as it is.
pub start-present : (l : EventLoop) → is_joinable l.thread ≡ true → (start l).1 ≡ l
unfolding start
start-present l e = rw e refl

-- So does `stop` with a loop that has none.
pub request_stop-absent : (l : EventLoop) → is_joinable l.thread ≡ false → request_stop l ≡ l
unfolding request_stop
request_stop-absent l e = rw e refl

request_stop-IsTold : (l : EventLoop) → is_joinable l.thread ≡ true → IsTold (request_stop l)
unfolding request_stop
request_stop-IsTold l e = rw e record { told = refl; present = e }

-- A handler that calls `stop` gets an exception.
pub stop_inside-throws : (l : EventLoop) → l.thread ≡ polling → stop_inside l ≡ throws
unfolding stop_inside
stop_inside-throws l e = rw e refl

pub Reach-IsTold : {ops : List Op} {l : EventLoop} → Reach ops l → l.joining ≡ true → IsTold l
unfolding new join
Reach-IsTold here j = absurd cc
Reach-IsTold (begins {l} r out) j = absurd (cc (start-joining l))
Reach-IsTold (ignores {l} r out a) j = absurd (cc (request_stop-absent l a))
Reach-IsTold (requests {l} r out a) j = request_stop-IsTold l a
Reach-IsTold (joins r w e) j = absurd cc
Reach-IsTold (turns r t) j = (Turn-Winds (Reach-IsTold r (sym (Turn-joining t) ∙ j)).told t).is_told
Reach-IsTold (handler_starts {l} r e) j =
    rw (start-present l (ap is_joinable e)) (Reach-IsTold r (sym (start-joining l) ∙ j))
Reach-IsTold (handler_stops {l} r e f) j = absurd (cc (stop_inside-throws l e))

-- The same of several turns.
record Wind (k : ℕ) (l m : EventLoop) : Type 0 where
  is_told : IsTold m
  rounds : m.rounds ≡ l.rounds
  left : turns_left l.thread ≡ k + turns_left m.thread

Turns-Wind : (k : ℕ) {l m : EventLoop} → IsTold l → Turns k l m → Wind k l m
Turns-Wind zero s none_left = record { is_told = s; rounds = refl; left = omega arith }
Turns-Wind (suc k) s (turn t ts) =
    let h = Turn-Winds s.told t in
    let rest = Turns-Wind k h.is_told ts in
    record {
      is_told = rest.is_told;
      rounds = rest.rounds ∙ h.rounds;
      left = omega (arith, h.fewer, rest.left);
    }

-- Some turns of the thread lead to its end.
abbrev Ends : EventLoop → Type 0
Ends l = (k : ℕ) × (m : EventLoop) × Turns k l m × (m.thread ≡ ended)

Ends-Turn : {l m : EventLoop} → Turn l m → Ends m → Ends l
Ends-Turn t (k, n, ts, e) = (suc k, n, turn t ts, e)

testing-Ends : (l : EventLoop) → l.should_stop ≡ true → l.thread ≡ testing → Ends l
unfolding test
testing-Ends l s e = (1, test l, turn (tests e) none_left, ground arith)

sleeping-Ends : (l : EventLoop) → l.should_stop ≡ true → l.thread ≡ sleeping → Ends l
sleeping-Ends l s e = Ends-Turn (sleeps e) (testing-Ends _ s refl)

-- A thread that has been told comes to its end by itself.
IsTold-Ends : (l : EventLoop) (t : Thread) → IsTold l → l.thread ≡ t → Ends l
IsTold-Ends l absent h e = absurd (cc (h.present, ap is_joinable e))
IsTold-Ends l testing h e = testing-Ends l h.told e
IsTold-Ends l polling h e = Ends-Turn (polls e) (sleeping-Ends _ h.told refl)
IsTold-Ends l sleeping h e = sleeping-Ends l h.told e
IsTold-Ends l ended h e = (0, l, none_left, e)

turns_left-le : (t : Thread) → turns_left t ≤ 3
turns_left-le absent = omega arith
turns_left-le testing = omega arith
turns_left-le polling = omega arith
turns_left-le sleeping = omega arith
turns_left-le ended = omega arith

-- Once `stop` has told the thread of the loop, no further `uv_run` begins, and the thread makes
-- three turns at most; from wherever it stands, its turns lead to its end, which `stop` waits for.
pub stop_ends :
    {ops : List Op} {l m : EventLoop} {k : ℕ}
    → Reach ops l
    → l.joining ≡ true
    → Turns k l m
    → (k ≤ 3)
      × (m.rounds ≡ l.rounds)
      × ((j : ℕ) × (n : EventLoop) × Turns j m n × (n.thread ≡ ended))
stop_ends {l} {m} {k} r w ts =
    let h = Turns-Wind k (Reach-IsTold r w) ts in
    (omega (arith, h.left, turns_left-le l.thread), h.rounds, IsTold-Ends m m.thread h.is_told refl)
