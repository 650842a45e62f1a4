-- ===== src/Session/Heartbeat.antt =====
-- The heartbeat of src/session.cpp.
use libuv_net.Base.{
  ℕ, ◌+◌, ◌≡◌, refl, sym, false, ◌-◌, ◌/◌, ◌^◌, List, [], ◌∷◌, Option, none, some, ltb, ◌==◌,
  if◌then◌else◌, Bool-cases, Option-cases, inl, inr, arith,
}
use libuv_net.Base.Outcome.{Outcome, returns, throws, stuck, ◌>>=◌, Holds, Holds-bind, any}
use libuv_net.Base.Map.{lookup}
use libuv_net.Packet.{Packet, packet_of, serialize}
use libuv_net.Packet.PacketType
use libuv_net.Interceptor.{Interceptor, get_interceptor}
use libuv_net.Uv.{Uv, Event, closes, writes}
use libuv_net.Session.Defs.{
  Call, calls_send, calls_stop, calls_close, calls_server, calls_other, PacketHandler, Conn,
  heartbeat_timeout_ms, emit, elapsed_ms, on_heartbeat_timer, run_call, run_calls,
}
use libuv_net.Session.Receive.{call_handler, dispatch, gate, handle_packet}
use libuv_net.Session.Closing.{IsConsistent}

module _ {V : Type 0} (uv : Uv) (at : ℕ) where
  abbrev pub Since : Conn V → Type 0
  Since c = c.last_heartbeat ≡ at

  pub run_call-Since : (x : Call) (c : Conn V) → Since c → Since (run_call uv x c)
  unfolding run_call
  run_call-Since (calls_send p) c h = ground arith
  run_call-Since calls_stop c h = ground arith
  run_call-Since calls_close c h = ground arith
  run_call-Since (calls_server k p) c h = ground arith
  run_call-Since (calls_other k p) c h = ground arith

  run_calls-Since : (xs : List Call) (c : Conn V) → Since c → Since (run_calls uv xs c)
  unfolding run_calls
  run_calls-Since [] c h = h
  run_calls-Since (x ∷ xs) c h = run_calls-Since xs (run_call uv x c) (run_call-Since x c h)

  handler-Since :
      (o : Option PacketHandler) (p : Packet) (c : Conn V)
      → Since c
      → Holds Since (elim o [ some h ↦ call_handler uv h p c | none ↦ returns c ])
  unfolding call_handler
  handler-Since none p c h = h
  handler-Since (some x) p c h =
      Holds-bind (λ _. Unit {0}) Since (x.ends p) _ (any (x.ends p))
        (λ _ _. run_calls-Since (x.react p) (emit (Event.call_packet x.name p) c) h)

  dispatch-Since : (p : Packet) (c : Conn V) → Since c → Holds Since (dispatch uv p c)
  unfolding dispatch
  dispatch-Since p c h = elim (Option-cases (lookup p.type c.packet_handlers)) [
    | inl gone ↦ rw (gone, dispatch) (handler-Since c.default_packet_handler p c h)
    | inr (x, found) ↦ rw (found, dispatch) (handler-Since (some x) p c h)
  ]

  intercepted-Since :
      (m : Outcome (Option V)) (p : Packet) (c : Conn V)
      → Since c
      → Holds Since (m >>= λ v. gate uv v p c)
  unfolding gate
  intercepted-Since (returns (some v)) p c h = dispatch-Since p c h
  intercepted-Since (returns none) p c h = h
  intercepted-Since throws p c h = tt
  intercepted-Since stuck p c h = tt

  other-Since :
      (o : Option (Interceptor V)) (p : Packet) (c : Conn V)
      → Since c
      → Holds Since (elim o [
        | some i ↦ i.deserialize p.payload >>= λ value. gate uv value p c
        | none ↦ dispatch uv p c
      ])
  other-Since none p c h = dispatch-Since p c h
  other-Since (some i) p c h = intercepted-Since (i.deserialize p.payload) p c h

-- A heartbeat sets the time of the last heartbeat to the present; no other packet changes it,
-- whatever calls its handler makes.
pub handle_packet-last_heartbeat :
    {V : Type 0} (uv : Uv) (p : Packet) (c : Conn V)
    → Holds
        (λ d.
          d.last_heartbeat
          ≡ (if p.type == PacketType.heartbeat then uv.clock c.history else c.last_heartbeat))
        (handle_packet uv p c)
unfolding handle_packet
handle_packet-last_heartbeat uv p c = elim (Bool-cases (p.type == PacketType.heartbeat)) [
  | inl e ↦ rw e refl
  | inr e ↦ rw e (other-Since uv c.last_heartbeat (get_interceptor p.type c.interceptors) p c refl)
]

on_tick :
    {V : Type 0} (uv : Uv) (before : ℕ) (c : Conn V)
    → IsConsistent before c
    → c.is_closing ≡ false
    → let d = on_heartbeat_timer uv c in
      let late = ltb heartbeat_timeout_ms (elapsed_ms uv c) in
      (d.is_closing ≡ late)
      × (closes d.history ≡ closes c.history + (if late then 1 else 0))
      × (writes d.history ≡ (
          if late
          then writes c.history
          else serialize uv.abi (packet_of PacketType.heartbeat []) ∷ writes c.history))
      × (d.last_heartbeat ≡ c.last_heartbeat)
unfolding on_heartbeat_timer
on_tick uv before c h open_ = ground arith

-- What a tick of the timer does to an open session, where uv_is_closing agrees with `is_closing_`.
pub on_heartbeat_timer_lem :
    {V : Type 0} (uv : Uv) (before at : ℕ) (c : Conn V)
    → IsConsistent before c
    → c.is_closing ≡ false
    → c.last_heartbeat ≡ at
    → let d = on_heartbeat_timer uv c in
      let late = ltb heartbeat_timeout_ms ((uv.clock c.history - at) / 10 ^ 6) in
      (d.is_closing ≡ late)
      × (closes d.history ≡ closes c.history + (if late then 1 else 0))
      × (writes d.history ≡ (
          if late
          then writes c.history
          else serialize uv.abi (packet_of PacketType.heartbeat []) ∷ writes c.history))
      × (d.last_heartbeat ≡ at)
on_heartbeat_timer_lem uv before at c h open_ since = rw (sym since) (on_tick uv before c h open_)
