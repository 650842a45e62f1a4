-- ===== src/Session/Keeps.antt =====
-- A property of a connection that its small steps keep, and with it most callbacks and calls of
-- src/session.cpp: all but those in which memory is made or deleted.
use libuv_net.Base.{
  ℕ, zero, suc, ◌≡◌, refl, Bool, true, false, List, [], ◌∷◌, ◌++◌, Option, none, some, length, drop,
  ltb, ◌==◌, if◌then◌else◌, Bool-cases, Option-cases, inl, inr,
}
use libuv_net.Base.Outcome.{
  Outcome, returns, throws, stuck, ◌>>=◌, Holds, Holds-bind, any, Holds-if,
}
use libuv_net.Base.Map.{lookup}
use libuv_net.Packet.{Packet, packet_of, empty_packet, header_size, deserialize}
use libuv_net.Packet.PacketType
use libuv_net.Interceptor.{get_interceptor}
use libuv_net.Uv.{Uv, Status, ebusy, Event, is_inert}
use libuv_net.Session.Defs.{
  Call, calls_send, calls_close, PacketHandler, ReadHandler, Conn, Session, heartbeat_timeout_ms,
  emit, on_conn, close, send, start, start_read, send_data, elapsed_ms, on_close,
  on_heartbeat_timer, run_call, run_calls,
}
use libuv_net.Session.Receive.{
  is_empty, message_size, call_handler, dispatch, gate, handle_packet, process_loop, process_buffer,
  append_to_buffer,
}
use libuv_net.Session.Lifecycle.{
  Input, alloc, read, written, closed, timer, started, send_value, api, step,
}

-- All but those in which memory is made or deleted.
abbrev pub is_inner : {V : Type 0} → Input V → Bool
is_inner (alloc size) = false
is_inner (read incoming) = false
is_inner (written status) = false
is_inner _ = true

module _ {V : Type 0} (uv : Uv) (P : Conn V → Type 0)
    (emits : (e : Event) (c : Conn V) → is_inert e ≡ true → P c → P (emit e c))
    (sets : (n : ℕ) (b : Bool) (c : Conn V)
      → P c
      → P (record c { last_heartbeat = n; timer_active = b }))
    (called : (x : Call) (c : Conn V) → P c → P (run_call uv x c)) where
  pub run_calls-keeps : (xs : List Call) (c : Conn V) → P c → P (run_calls uv xs c)
  unfolding run_calls
  run_calls-keeps [] c h = h
  run_calls-keeps (x ∷ xs) c h = run_calls-keeps xs (run_call uv x c) (called x c h)

  call_handler-keeps :
      (h : PacketHandler) (p : Packet) (c : Conn V) → P c → Holds P (call_handler uv h p c)
  unfolding call_handler
  call_handler-keeps h p c k =
      Holds-bind (λ _. Unit {0}) P (h.ends p) _ (any (h.ends p))
        (λ _ _. run_calls-keeps (h.react p) _ (emits (Event.call_packet h.name p) c refl k))

  default-keeps :
      (o : Option PacketHandler) (p : Packet) (c : Conn V)
      → P c
      → Holds P (elim o [ some h ↦ call_handler uv h p c | none ↦ returns c ])
  default-keeps none p c k = k
  default-keeps (some h) p c k = call_handler-keeps h p c k

  dispatch-keeps : (p : Packet) (c : Conn V) → P c → Holds P (dispatch uv p c)
  unfolding dispatch
  dispatch-keeps p c k = elim (Option-cases (lookup p.type c.packet_handlers)) [
    | inr (h, e) ↦ rw (e, dispatch) (call_handler-keeps h p c k)
    | inl e ↦ rw (e, dispatch) (default-keeps c.default_packet_handler p c k)
  ]

  intercepted-keeps :
      (m : Outcome (Option V)) (p : Packet) (c : Conn V) → P c → Holds P (m >>= λ v. gate uv v p c)
  unfolding gate
  intercepted-keeps (returns (some v)) p c k = dispatch-keeps p c k
  intercepted-keeps (returns none) p c k = k
  intercepted-keeps throws p c k = tt
  intercepted-keeps stuck p c k = tt

  pub handle_packet-keeps : (p : Packet) (c : Conn V) → P c → Holds P (handle_packet uv p c)
  unfolding handle_packet
  handle_packet-keeps p c k = elim (Bool-cases (p.type == PacketType.heartbeat)) [
    | inl e ↦ rw e (emits Event.clock_read _ refl (sets (uv.clock c.history) c.timer_active c k))
    | inr e ↦ elim (Option-cases (get_interceptor p.type c.interceptors)) [
      | inl f ↦ rw e (rw f (dispatch-keeps p c k))
      | inr (i, f) ↦ rw e (rw f (intercepted-keeps (i.deserialize p.payload) p c k))
    ]
  ]

  abbrev OnConn : Session V → Type 0
  OnConn s = P s.conn

  process_loop-keeps : (fuel : ℕ) (s : Session V) → P s.conn → Holds OnConn (process_loop uv fuel s)
  unfolding process_loop
  process_loop-keeps zero s k = tt
  process_loop-keeps (suc fuel) s k =
      let size = message_size uv.abi s.read_buffer in
      let (packet, parsed) = deserialize uv.abi empty_packet s.read_buffer size in
      Holds-if OnConn (is_empty s.read_buffer) _ _ k (
        Holds-if OnConn (ltb (length s.read_buffer) header_size) _ _ k (
          Holds-if OnConn (ltb (length s.read_buffer) size) _ _ k (
            Holds-if OnConn parsed _ _
              (Holds-bind P OnConn (handle_packet uv packet s.conn) _
                (handle_packet-keeps packet s.conn k)
                (λ c h.
                  process_loop-keeps fuel
                    (record { conn = c; read_buffer = drop size s.read_buffer }) h))
              k)))

  append_to_buffer-keeps :
      (bytes : List ℕ) (s : Session V) → P s.conn → Holds OnConn (append_to_buffer uv bytes s)
  unfolding append_to_buffer process_buffer
  append_to_buffer-keeps bytes s k =
      process_loop-keeps (suc (length (s.read_buffer ++ bytes)))
        (record s { read_buffer = s.read_buffer ++ bytes }) k

  close-keeps : (c : Conn V) → P c → P (close c)
  unfolding run_call
  close-keeps c k = called calls_close c k

  send-keeps : (p : Packet) (c : Conn V) → P c → P (send uv p c)
  unfolding run_call
  send-keeps p c k = called (calls_send p) c k

  pub read-keeps :
      (o : Option ReadHandler) (bytes : List ℕ) (s : Session V)
      → P s.conn
      → Holds OnConn (elim o [
        | some h ↦ h.ends bytes >>= λ _.
            returns (
              on_conn (λ c. run_calls uv (h.react bytes) (emit (Event.call_read h.name bytes) c)) s)
        | none ↦ append_to_buffer uv bytes s
      ])
  read-keeps none bytes s k = append_to_buffer-keeps bytes s k
  read-keeps (some h) bytes s k =
      Holds-bind (λ _. Unit {0}) OnConn (h.ends bytes) _ (any (h.ends bytes))
        (λ _ _.
          run_calls-keeps (h.react bytes) _ (emits (Event.call_read h.name bytes) s.conn refl k))

  if-keeps : (b : Bool) (c d : Conn V) → P c → P d → P (if b then c else d)
  if-keeps true c d h k = h
  if-keeps false c d h k = k

  on_heartbeat_timer-keeps : (c : Conn V) → P c → P (on_heartbeat_timer uv c)
  unfolding on_heartbeat_timer
  on_heartbeat_timer-keeps c k =
      let read = emit Event.clock_read c in
      let h = emits Event.clock_read c refl k in
      if-keeps (ltb heartbeat_timeout_ms (elapsed_ms uv c)) _ _ (close-keeps read h)
        (send-keeps (packet_of PacketType.heartbeat []) read h)

  pub option-keeps :
      (o : Option ℕ) (f : ℕ → Event) (c d : Conn V)
      → ((n : ℕ) → is_inert (f n) ≡ true)
      → P c
      → P d
      → P (elim o [ some h ↦ emit (f h) c | none ↦ d ])
  option-keeps none f c d plain k j = j
  option-keeps (some h) f c d plain k j = emits (f h) c (plain h) k

  result-keeps :
      (b : Bool) (x y : Status) (c d : Conn V)
      → P c
      → P d
      → P (if◌then◌else◌ {A = Status × Conn V} b (x, c) (y, d)).1
  result-keeps true x y c d h k = h
  result-keeps false x y c d h k = k

  pub started-keeps : (c : Conn V) → P c → P (start uv c)
  unfolding start
  started-keeps c k =
      let d = (start_read uv c).1 in
      let h =
        result-keeps c.is_closing ebusy (uv.read_start c.history) c (emit Event.read_start c) k
          (emits Event.read_start c refl k) in
      let set = sets (uv.clock d.history) true d h in
      emits Event.timer_start
        (emit Event.clock_read
          (record d { last_heartbeat = uv.clock d.history; timer_active = true }))
        refl
        (emits Event.clock_read
          (record d { last_heartbeat = uv.clock d.history; timer_active = true }) refl set)

  serialized-keeps :
      (m : Outcome (List ℕ)) (type : ℕ) (c : Conn V)
      → P c
      → Holds P (m >>= λ bytes. returns (send uv (packet_of type bytes) c))
  serialized-keeps (returns bytes) type c k = send-keeps (packet_of type bytes) c k
  serialized-keeps throws type c k = tt
  serialized-keeps stuck type c k = tt

  send_data-keeps : (type : ℕ) (v : V) (c : Conn V) → P c → Holds P (send_data uv type v c)
  unfolding send_data
  send_data-keeps type v c k = elim (Option-cases (get_interceptor type c.interceptors)) [
    | inl e ↦ rw (e, send_data) k
    | inr (i, e) ↦ rw (e, send_data) (serialized-keeps (i.serialize v) type c k)
  ]

  pub inner-keeps :
      (s : Session V) (i : Input V) → is_inner i ≡ true → P s.conn → Holds OnConn (step uv s i)
  unfolding step on_close
  inner-keeps s (alloc size) h k = cc
  inner-keeps s (read incoming) h k = cc
  inner-keeps s (written status) h k = cc
  inner-keeps s closed h k =
      option-keeps s.close_handler Event.call_close s.conn s.conn (λ n. refl) k k
  inner-keeps s timer h k = on_heartbeat_timer-keeps s.conn k
  inner-keeps s started h k = started-keeps s.conn k
  inner-keeps s (send_value type v) h k =
      Holds-bind P OnConn (send_data uv type v s.conn) _ (send_data-keeps type v s.conn k)
        (λ c h. h)
  inner-keeps s (api x) h k = called x s.conn k
