-- ===== src/Session/Silence.antt =====
-- The heartbeat of src/session.cpp over runs in which the peer sends nothing.
use libuv_net.Base.{
  ℕ, ◌+◌, ◌-◌, ◌/◌, ◌^◌, ◌≡◌, refl, Bool, true, false, List, [], ◌∷◌, ltb, if◌then◌else◌, All,
  Option-cases, inl, inr, arith,
}
use libuv_net.Base.Outcome.{
  Outcome, returns, throws, stuck, ◌>>=◌, Holds, Holds-bind, Holds-of_returns,
}
use libuv_net.Packet.{packet_of, serialize}
use libuv_net.Packet.PacketType
use libuv_net.Interceptor.{get_interceptor}
use libuv_net.Uv.{Uv, done, error, failed, received, closes, writes}
use libuv_net.Session.Defs.{
  Conn, Session, heartbeat_timeout_ms, on_heartbeat_timer, on_alloc, on_write, on_close, close,
  send, send_data,
}
use libuv_net.Session.Receive.{on_read}
use libuv_net.Session.Lifecycle.{
  Input, alloc, read, written, closed, timer, started, send_value, api, step, run,
}
use libuv_net.Session.Closing.{IsConsistent, run-IsConsistent}
use libuv_net.Session.Heartbeat.{Since, run_call-Since, on_heartbeat_timer_lem}

-- No bytes come in, and the session is not started again.
abbrev pub is_silent : {V : Type 0} → Input V → Bool
is_silent (read (received (b ∷ bytes))) = false
is_silent started = false
is_silent _ = true

module _ {V : Type 0} (uv : Uv) (at : ℕ) where
  alloc-Since : (size : ℕ) (c : Conn V) → Since uv at c → Since uv at (on_alloc size c)
  unfolding on_alloc
  alloc-Since size c h = ground arith

  closed-Since : (c : Conn V) → Since uv at c → Since uv at (on_close c)
  unfolding on_close
  closed-Since c h = ground arith

  close-Since : (c : Conn V) → Since uv at c → Since uv at (close c)
  unfolding close
  close-Since c h = ground arith

  timer-Since : (c : Conn V) → Since uv at c → Since uv at (on_heartbeat_timer uv c)
  unfolding on_heartbeat_timer
  timer-Since c h = ground arith

  serialized-Since :
      (m : Outcome (List ℕ)) (type : ℕ) (c : Conn V)
      → Since uv at c
      → Holds (Since uv at) (m >>= λ bytes. returns (send uv (packet_of type bytes) c))
  unfolding send
  serialized-Since (returns bytes) type c h = ground arith
  serialized-Since throws type c h = tt
  serialized-Since stuck type c h = tt

  send_data-Since :
      (type : ℕ) (v : V) (c : Conn V) → Since uv at c → Holds (Since uv at) (send_data uv type v c)
  unfolding send_data
  send_data-Since type v c h = elim (Option-cases (get_interceptor type c.interceptors)) [
    | inl e ↦ rw (e, send_data) h
    | inr (i, e) ↦ rw (e, send_data) (serialized-Since (i.serialize v) type c h)
  ]

  step-Since :
      (s : Session V) (i : Input V)
      → is_silent i ≡ true
      → Since uv at s.conn
      → Holds (λ t. Since uv at t.conn) (step uv s i)
  unfolding step on_read on_write close
  step-Since s (alloc size) quiet h = alloc-Since size s.conn h
  step-Since s (read (failed code)) quiet h = close-Since s.conn h
  step-Since s (read (received [])) quiet h = h
  step-Since s (read (received (b ∷ bytes))) quiet h = absurd (cc quiet)
  step-Since s (written done) quiet h = h
  step-Since s (written (error code)) quiet h = ground arith
  step-Since s closed quiet h = closed-Since s.conn h
  step-Since s timer quiet h = timer-Since s.conn h
  step-Since s started quiet h = absurd (cc quiet)
  step-Since s (send_value type v) quiet h =
      Holds-bind (Since uv at) (λ t. Since uv at t.conn) (send_data uv type v s.conn) _
        (send_data-Since type v s.conn h) (λ c k. k)
  step-Since s (api x) quiet h = run_call-Since uv at x s.conn h

  run-Since :
      (s : Session V) (is : List (Input V))
      → All (λ i. is_silent i ≡ true) is
      → Since uv at s.conn
      → Holds (λ t. Since uv at t.conn) (run uv s is)
  run-Since s [] quiet h = h
  run-Since s (i ∷ is) quiet h =
      Holds-bind (λ t. Since uv at t.conn) (λ t. Since uv at t.conn) (step uv s i) _
        (step-Since s i quiet.0 h) (λ t k. run-Since t is quiet.1 k)

-- In a run in which no bytes come in and `start` is not called again, whatever else happens, that
-- ends in an open session, from a state where uv_is_closing agrees with `is_closing_`: at a tick of
-- the timer, if more than 90 seconds have passed since the heartbeat time with which the run began,
-- the session closes its socket, once, and writes nothing; otherwise it stays open and writes one
-- heartbeat packet. The heartbeat time is left alone.
pub silent_peer :
    {V : Type 0} (uv : Uv) (before : ℕ) (s t : Session V) (is : List (Input V))
    → IsConsistent before s.conn
    → All (λ i. is_silent i ≡ true) is
    → run uv s is ≡ returns t
    → t.is_closing ≡ false
    → let d = on_heartbeat_timer uv t.conn in
      let late = ltb heartbeat_timeout_ms ((uv.clock t.history - s.last_heartbeat) / 10 ^ 6) in
      (d.is_closing ≡ late)
      × (closes d.history ≡ closes t.history + (if late then 1 else 0))
      × (writes d.history ≡ (
          if late
          then writes t.history
          else serialize uv.abi (packet_of PacketType.heartbeat []) ∷ writes t.history))
      × (d.last_heartbeat ≡ s.last_heartbeat)
silent_peer uv before s t is h quiet ran open_ =
    let since : t.last_heartbeat ≡ s.last_heartbeat =
      Holds-of_returns (λ u. Since uv s.last_heartbeat u.conn) (run uv s is)
        (run-Since uv s.last_heartbeat s is quiet refl) ran in
    let good =
      Holds-of_returns (λ u. IsConsistent before u.conn) (run uv s is)
        (run-IsConsistent uv before s is h) ran in
    on_heartbeat_timer_lem uv before s.last_heartbeat t.conn good open_ since
