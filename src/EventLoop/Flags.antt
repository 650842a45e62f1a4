-- ===== src/EventLoop/Flags.antt =====
-- src/client.cpp and src/server.cpp: `start` and `stop` of the two classes, which Client.Defs and
-- Server.Defs take as one step each, against the steps of the two threads.
use libuv_net.Base.{
  ◌≡◌, ◌≢◌, ◌||◌, refl, sym, ap, ◌∙◌, Bool, Bool-cases, true, false, not, inl, inr, List, [], ◌∷◌,
  arith,
}
use libuv_net.Client.Defs.{Link, start as start_client, stop as stop_client}
use libuv_net.Server.Defs.{Server, start as start_server, stop as stop_server}
use libuv_net.EventLoop.Defs.{
  EventLoop, new, ended, is_joinable, test, tests, polls, sleeps, start, request_stop, join, Op,
  starts, stops, Reach, here, begins, ignores, requests, joins, turns, handler_starts,
  handler_stops, Turn,
}
use libuv_net.EventLoop.Stop.{
  start-present, request_stop-absent, stop_inside-throws, IsTold, Reach-IsTold, Turn-joining,
  Turn-joinable, Turn-should_stop,
}

-- A class that has a loop: what it knows of the thread, and its `start` and `stop` as one step.
pub record Owner (C : Type 0) : Type 0 where
  pub joinable : C → Bool
  pub should_stop : C → Bool
  pub start : C → Bool × C
  pub stop : C → C

abbrev pub client_owner : {V : Type 0} → Owner (Link V)
client_owner = record {
  joinable = λ l. l.joinable;
  should_stop = λ l. l.should_stop;
  start = start_client;
  stop = stop_client;
}

abbrev pub server_owner : {V : Type 0} → Owner (Server V)
server_owner = record {
  joinable = λ s. s.joinable;
  should_stop = λ s. s.should_stop;
  start = start_server;
  stop = stop_server;
}

-- What `start` and `stop` do to the flags.
record IsOwner {C : Type 0} (o : Owner C) : Type 0 where
  answers : (c : C) → (o.start c).0 ≡ not (o.joinable c)
  start-present : (c : C) → o.joinable c ≡ true → (o.start c).1 ≡ c
  joinable-start : (c : C) → o.joinable (o.start c).1 ≡ true
  should_stop-start : (c : C) → o.joinable c ≡ false → o.should_stop (o.start c).1 ≡ false
  stop-absent : (c : C) → o.joinable c ≡ false → o.stop c ≡ c
  joinable-stop : (c : C) → o.joinable (o.stop c) ≡ false
  should_stop-stop : (c : C) → o.joinable c ≡ true → o.should_stop (o.stop c) ≡ true

module _ {V : Type 0} where
  client_owner-IsOwner : IsOwner (client_owner {V = V})
  unfolding start_client stop_client
  client_owner-IsOwner = record {
    answers = λ l. ground arith;
    start-present = λ l e. rw e refl;
    joinable-start = λ l. ground arith;
    should_stop-start = λ l e. ground arith;
    stop-absent = λ l e. rw e refl;
    joinable-stop = λ l. ground arith;
    should_stop-stop = λ l e. ground arith;
  }

  server_owner-IsOwner : IsOwner (server_owner {V = V})
  unfolding start_server stop_server
  server_owner-IsOwner = record {
    answers = λ s. ground arith;
    start-present = λ s e. rw e refl;
    joinable-start = λ s. ground arith;
    should_stop-start = λ s e. ground arith;
    stop-absent = λ s e. rw e refl;
    joinable-stop = λ s. ground arith;
    should_stop-stop = λ s e. ground arith;
  }

-- The calls of the list, the newest first, each in one step.
abbrev pub after : {C : Type 0} → Owner C → List Op → C → C
after o [] c = c
after o (starts ∷ ops) c = (o.start (after o ops c)).1
after o (stops ∷ ops) c = o.stop (after o ops c)

-- While the owner waits in `join` the call is not among those that have returned; then the thread
-- still counts as joinable on both sides.
record Agrees {C : Type 0} (o : Owner C) (c : C) (l : EventLoop) : Type 0 where
  joinable : is_joinable l.thread ≡ o.joinable c
  should_stop : l.joining ≡ false → l.should_stop ≡ o.should_stop c

module _ {C : Type 0} (o : Owner C) (is : IsOwner o) where
  start-Agrees :
      (c : C) (l : EventLoop)
      → l.joining ≡ false
      → Agrees o c l
      → Agrees o (o.start c).1 (start l).1
  unfolding start
  start-Agrees c l out h = elim (Bool-cases (is_joinable l.thread)) [
    | inl a ↦ rw (is.start-present c (sym h.joinable ∙ a)) (rw (start-present l a) h)
    | inr a ↦ rw a record {
      joinable = sym (is.joinable-start c);
      should_stop = λ e. sym (is.should_stop-start c (sym h.joinable ∙ a));
    }
  ]

  Turn-Agrees : (c : C) {l m : EventLoop} → Turn l m → Agrees o c l → Agrees o c m
  Turn-Agrees c t h = record {
    joinable = Turn-joinable t ∙ h.joinable;
    should_stop = λ e. Turn-should_stop t ∙ h.should_stop (sym (Turn-joining t) ∙ e);
  }

  request_stop-Agrees :
      (c : C) (l : EventLoop)
      → is_joinable l.thread ≡ true
      → Agrees o c l
      → Agrees o c (request_stop l)
  unfolding request_stop
  request_stop-Agrees c l a h = rw a record { joinable = h.joinable; should_stop = λ e. absurd cc }

  ignores-Agrees :
      (c : C) (l : EventLoop)
      → is_joinable l.thread ≡ false
      → Agrees o c l
      → Agrees o (o.stop c) (request_stop l)
  ignores-Agrees c l a h =
      rw (request_stop-absent l a) (rw (is.stop-absent c (sym h.joinable ∙ a)) h)

  joins-Agrees : (c : C) (l : EventLoop) → IsTold l → Agrees o c l → Agrees o (o.stop c) (join l)
  unfolding join
  joins-Agrees c l told h = record {
    joinable = sym (is.joinable-stop c);
    should_stop = λ e. told.told ∙ sym (is.should_stop-stop c (sym h.joinable ∙ told.present));
  }

  Reach-Agrees :
      (c : C)
      → o.joinable c ≡ false
      → o.should_stop c ≡ false
      → {ops : List Op} {l : EventLoop} → Reach ops l
      → Agrees o (after o ops c) l
  unfolding new
  Reach-Agrees c unstarted fresh here = record {
    joinable = sym unstarted;
    should_stop = λ e. sym fresh;
  }
  Reach-Agrees c unstarted fresh (begins r out) =
      start-Agrees _ _ out (Reach-Agrees c unstarted fresh r)
  Reach-Agrees c unstarted fresh (ignores r out a) =
      ignores-Agrees _ _ a (Reach-Agrees c unstarted fresh r)
  Reach-Agrees c unstarted fresh (requests r out a) =
      request_stop-Agrees _ _ a (Reach-Agrees c unstarted fresh r)
  Reach-Agrees c unstarted fresh (joins r w e) =
      joins-Agrees _ _ (Reach-IsTold r w) (Reach-Agrees c unstarted fresh r)
  Reach-Agrees c unstarted fresh (turns r t) = Turn-Agrees _ t (Reach-Agrees c unstarted fresh r)
  Reach-Agrees c unstarted fresh (handler_starts {l} r e) =
      rw (start-present l (ap is_joinable e)) (Reach-Agrees c unstarted fresh r)
  Reach-Agrees c unstarted fresh (handler_stops {l} r e f) = absurd (cc (stop_inside-throws l e))

start-answer : (l : EventLoop) → (start l).0 ≡ not (is_joinable l.thread)
unfolding start
start-answer l = ground arith

-- What the calls of the owner come to, the newest first: whether there is a thread, and whether it was
-- ever told to stop and not started again since.
abbrev pub runs : List Op → Bool
runs [] = false
runs (starts ∷ ops) = true
runs (stops ∷ ops) = false

abbrev pub told_off : List Op → Bool
told_off [] = false
told_off (starts ∷ ops) = false
told_off (stops ∷ ops) = runs ops || told_off ops

-- The two flags, and what `start` would answer.
pub record Follows (ops : List Op) (joinable should_stop answer : Bool) : Type 0 where
  pub thread : joinable ≡ runs ops
  pub flag : should_stop ≡ told_off ops
  pub starting : answer ≡ not (runs ops)

runs-quiet : (ops : List Op) → runs ops ≡ true → told_off ops ≡ false
runs-quiet [] e = absurd cc
runs-quiet (starts ∷ ops) e = refl
runs-quiet (stops ∷ ops) e = absurd cc

module _ {C : Type 0} (o : Owner C) (is : IsOwner o) (c : C) (unstarted : o.joinable c ≡ false)
    (fresh : o.should_stop c ≡ false) where
  joinable-after : (ops : List Op) → o.joinable (after o ops c) ≡ runs ops
  joinable-after [] = unstarted
  joinable-after (starts ∷ ops) = is.joinable-start (after o ops c)
  joinable-after (stops ∷ ops) = is.joinable-stop (after o ops c)

  should_stop-after : (ops : List Op) → o.should_stop (after o ops c) ≡ told_off ops
  should_stop-after [] = fresh
  should_stop-after (starts ∷ ops) = elim (Bool-cases (runs ops)) [
    | inl e ↦
        rw (is.start-present (after o ops c) (joinable-after ops ∙ e))
          (should_stop-after ops ∙ runs-quiet ops e)
    | inr e ↦ is.should_stop-start (after o ops c) (joinable-after ops ∙ e)
  ]
  should_stop-after (stops ∷ ops) = elim (Bool-cases (runs ops)) [
    | inl e ↦ rw e (is.should_stop-stop (after o ops c) (joinable-after ops ∙ e))
    | inr e ↦
        rw e (rw (is.stop-absent (after o ops c) (joinable-after ops ∙ e)) (should_stop-after ops))
  ]

  owner-Follows :
      (ops : List Op)
      → let d = after o ops c in Follows ops (o.joinable d) (o.should_stop d) (o.start d).0
  owner-Follows ops = record {
    thread = joinable-after ops;
    flag = should_stop-after ops;
    starting = is.answers (after o ops c) ∙ ap not (joinable-after ops);
  }

-- A thread comes to its end only if it has been told.
ended-told : {ops : List Op} {l : EventLoop} → Reach ops l → l.thread ≡ ended → l.should_stop ≡ true
unfolding new start request_stop join test
ended-told here e = absurd cc
ended-told (begins {l} r out) e = ground (arith, ended-told r)
ended-told (ignores {l} r out a) e = ground (arith, ended-told r)
ended-told (requests {l} r out a) e = ground arith
ended-told (joins r w f) e = absurd cc
ended-told (turns r (tests f)) e = ground arith
ended-told (turns r (polls f)) e = absurd cc
ended-told (turns r (sleeps f)) e = absurd cc
ended-told (handler_starts {l} r f) e =
    rw (start-present l (ap is_joinable f)) (absurd (cc (start-present l (ap is_joinable f), e, f)))
ended-told (handler_stops {l} r f g) e = absurd (cc (stop_inside-throws l f))

-- However the turns of the loop's thread, the calls of its owner and those of handlers interleave,
-- while the owner is not in `stop`: there is a thread exactly if the last call was `start`, and that
-- thread has not come to its end; the flag is up exactly if a running loop was stopped and none was
-- started since; `start` would succeed exactly if there is no thread. The client and the server of
-- Client.Defs and Server.Defs, where each call is one step, have the same flags and give the same
-- answer.
pub threads_follow :
    {V : Type 0} (l : Link V) (s : Server V) {ops : List Op} {m : EventLoop}
    → l.joinable ≡ false
    → l.should_stop ≡ false
    → s.joinable ≡ false
    → s.should_stop ≡ false
    → Reach ops m
    → m.joining ≡ false
    → let k = after client_owner ops l in
      let t = after server_owner ops s in
      Follows ops (is_joinable m.thread) m.should_stop (start m).0
      × (m.thread ≢ ended)
      × Follows ops k.joinable k.should_stop (start_client k).0
      × Follows ops t.joinable t.should_stop (start_server t).0
threads_follow l s {ops} {m} lj ls sj ss r out =
    let client = owner-Follows client_owner client_owner-IsOwner l lj ls ops in
    let server = owner-Follows server_owner server_owner-IsOwner s sj ss ops in
    let agrees = Reach-Agrees client_owner client_owner-IsOwner l lj ls r in
    let thread = agrees.joinable ∙ client.thread in
    let flag = agrees.should_stop out ∙ client.flag in
    (
      record { thread = thread; flag = flag; starting = start-answer m ∙ ap not thread },
      λ e.
          let present : runs ops ≡ true = sym thread ∙ ap is_joinable e in
          cc (ended-told r e, flag, runs-quiet ops present),
      client,
      server,
    )
