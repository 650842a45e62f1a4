-- ===== src/EventLoop/Defs.antt =====
-- src/client.cpp and src/server.cpp: the thread of the loop and its owner, one step at a time.
use libuv_net.Base.{ℕ, suc, ◌≡◌, Bool, true, false, not, List, [], ◌∷◌, if◌then◌else◌}
use libuv_net.Base.Outcome.{Outcome, returns, throws}

-- Where the thread of the loop stands: none, or about to read `should_stop_`, in `uv_run`, in
-- `sleep_for`, or at its end and not joined yet.
pub data Thread : Type 0 where
  absent testing polling sleeping ended : Thread

-- `rounds` counts the calls of `uv_run` and is no field of the classes.
pub record EventLoop : Type 0 where
  pub thread : Thread  -- loop_thread_
  pub should_stop : Bool
  pub joining : Bool  -- the owner is in loop_thread_.join()
  pub rounds : ℕ

unfoldable pub new : EventLoop
new = record { thread = absent; should_stop = false; joining = false; rounds = 0 }

abbrev pub is_joinable : Thread → Bool
is_joinable absent = false
is_joinable _ = true

unfoldable pub start : EventLoop → Bool × EventLoop
start l =
    if is_joinable l.thread
    then (false, l)
    else (true, record l { should_stop = false; thread = testing })

-- `stop` on the owner's thread up to `join`, or to the early return
unfoldable pub request_stop : EventLoop → EventLoop
request_stop l =
    if not (is_joinable l.thread) then l else record l { should_stop = true; joining = true }

-- `join` and the rest of `stop`
unfoldable pub join : EventLoop → EventLoop
join l = record l { thread = absent; joining = false }

-- `stop` on the thread of the loop: `join` throws when a thread waits for itself.
unfoldable pub stop_inside : EventLoop → Outcome EventLoop
stop_inside l = if not (is_joinable l.thread) then returns l else throws

-- The test of the `while`
unfoldable pub test : EventLoop → EventLoop
test l =
    if not l.should_stop
    then record l { thread = polling; rounds = suc l.rounds }
    else record l { thread = ended }

-- One turn of the thread of the loop.
pub data Turn (l : EventLoop) : EventLoop → Type 0 where
  tests : l.thread ≡ testing → Turn l (test l)
  polls : l.thread ≡ polling → Turn l (record l { thread = sleeping })
  sleeps : l.thread ≡ sleeping → Turn l (record l { thread = testing })

-- A call that the owner has made and that has returned.
pub data Op : Type 0 where
  starts stops : Op

-- The states that are reached when the calls of the list have returned, the newest first.
pub data Reach : List Op → EventLoop → Type 0 where
  here : Reach [] new
  begins :
      {ops : List Op} {l : EventLoop}
      → Reach ops l
      → l.joining ≡ false
      → Reach (starts ∷ ops) (start l).1
  ignores :
      {ops : List Op} {l : EventLoop}
      → Reach ops l
      → l.joining ≡ false
      → is_joinable l.thread ≡ false
      → Reach (stops ∷ ops) (request_stop l)
  requests :
      {ops : List Op} {l : EventLoop}
      → Reach ops l
      → l.joining ≡ false
      → is_joinable l.thread ≡ true
      → Reach ops (request_stop l)
  joins :
      {ops : List Op} {l : EventLoop}
      → Reach ops l
      → l.joining ≡ true
      → l.thread ≡ ended
      → Reach (stops ∷ ops) (join l)
  turns : {ops : List Op} {l m : EventLoop} → Reach ops l → Turn l m → Reach ops m
  handler_starts :
      {ops : List Op} {l : EventLoop} → Reach ops l → l.thread ≡ polling → Reach ops (start l).1
  handler_stops :
      {ops : List Op} {l m : EventLoop}
      → Reach ops l
      → l.thread ≡ polling
      → stop_inside l ≡ returns m
      → Reach ops m
