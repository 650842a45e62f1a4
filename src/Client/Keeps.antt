-- ===== src/Client/Keeps.antt =====
-- A property of a client that its small steps keep, and with it most callbacks and calls of
-- src/client.cpp: all but those in which memory is made or deleted, or the connection changes.
use libuv_net.Base.{
  ℕ, zero, suc, ◌≡◌, refl, Bool, true, false, not, List, [], ◌∷◌, ◌++◌, Option, none, some, length,
  drop, ltb, if◌then◌else◌, Option-cases, inl, inr,
}
use libuv_net.Base.Outcome.{
  Outcome, returns, throws, stuck, ◌>>=◌, Holds, Holds-bind, any, Holds-if,
}
use libuv_net.Base.Map.{lookup}
use libuv_net.Packet.{Packet, packet_of, empty_packet, header_size, deserialize}
use libuv_net.Packet.PacketType
use libuv_net.Interceptor.{get_interceptor}
use libuv_net.Uv.{Uv, Incoming, failed, received, Event, is_inert}
use libuv_net.Client.Defs.{
  Call, calls_send, calls_disconnect, PacketHandler, Link, Client, heartbeat_timeout_ms, emit,
  disconnect, send, send_data, elapsed_ms, on_heartbeat_timer, run_call, run_calls,
}
use libuv_net.Client.Receive.{
  message_size, call_handler, dispatch, gate, handle_packet, receive_loop, append_to_buffer,
  on_read,
}
use libuv_net.Client.Lifecycle.{Input, read, timer, send_value, api, step}

abbrev pub is_inner : {V : Type 0} → Input V → Bool
is_inner (read incoming) = true
is_inner timer = true
is_inner (send_value type v) = true
is_inner (api x) = true
is_inner _ = false

module _ {V : Type 0} (uv : Uv) (P : Link V → Type 0)
    (emits : (e : Event) (l : Link V) → is_inert e ≡ true → P l → P (emit e l))
    (called : (x : Call) (l : Link V) → P l → P (run_call uv x l)) where
  pub run_calls-keeps : (xs : List Call) (c : Link V) → P c → P (run_calls uv xs c)
  unfolding run_calls
  run_calls-keeps [] c h = h
  run_calls-keeps (x ∷ xs) c h = run_calls-keeps xs (run_call uv x c) (called x c h)

  call_handler-keeps :
      (h : PacketHandler) (p : Packet) (c : Link V) → P c → Holds P (call_handler uv h p c)
  unfolding call_handler
  call_handler-keeps h p c k =
      Holds-bind (λ _. Unit {0}) P (h.ends p) _ (any (h.ends p))
        (λ _ _. run_calls-keeps (h.react p) _ (emits (Event.call_packet h.name p) c refl k))

  default-keeps :
      (o : Option PacketHandler) (p : Packet) (c : Link V)
      → P c
      → Holds P (elim o [ some h ↦ call_handler uv h p c | none ↦ returns c ])
  default-keeps none p c k = k
  default-keeps (some h) p c k = call_handler-keeps h p c k

  dispatch-keeps : (p : Packet) (c : Link V) → P c → Holds P (dispatch uv p c)
  unfolding dispatch
  dispatch-keeps p c k = elim (Option-cases (lookup p.type c.packet_handlers)) [
    | inr (h, e) ↦ rw (e, dispatch) (call_handler-keeps h p c k)
    | inl e ↦ rw (e, dispatch) (default-keeps c.default_packet_handler p c k)
  ]

  intercepted-keeps :
      (m : Outcome (Option V)) (p : Packet) (c : Link V) → P c → Holds P (m >>= λ v. gate uv v p c)
  unfolding gate
  intercepted-keeps (returns (some v)) p c k = dispatch-keeps p c k
  intercepted-keeps (returns none) p c k = k
  intercepted-keeps throws p c k = tt
  intercepted-keeps stuck p c k = tt

  pub handle_packet-keeps : (p : Packet) (c : Link V) → P c → Holds P (handle_packet uv p c)
  unfolding handle_packet
  handle_packet-keeps p c k = elim (Option-cases (get_interceptor p.type c.interceptors)) [
    | inl f ↦ rw (f, handle_packet) (dispatch-keeps p c k)
    | inr (i, f) ↦ rw (f, handle_packet) (intercepted-keeps (i.deserialize p.payload) p c k)
  ]

  abbrev OnLink : Client V → Type 0
  OnLink s = P s.link

  receive_loop-keeps : (fuel : ℕ) (s : Client V) → P s.link → Holds OnLink (receive_loop uv fuel s)
  unfolding receive_loop
  receive_loop-keeps zero s k = tt
  receive_loop-keeps (suc fuel) s k =
      let size = message_size uv.abi s.buffer in
      let (packet, parsed) = deserialize uv.abi empty_packet s.buffer size in
      Holds-if OnLink (ltb (length s.buffer) header_size) _ _ k (
        Holds-if OnLink (ltb (length s.buffer) size) _ _ k (
          Holds-if OnLink (not parsed) _ _ k (
            Holds-bind P OnLink (handle_packet uv packet s.link) _
              (handle_packet-keeps packet s.link k)
              (λ c h.
                receive_loop-keeps fuel (record { link = c; buffer = drop size s.buffer }) h))))

  append_to_buffer-keeps :
      (bytes : List ℕ) (s : Client V) → P s.link → Holds OnLink (append_to_buffer uv bytes s)
  unfolding append_to_buffer
  append_to_buffer-keeps bytes s k =
      receive_loop-keeps (suc (length (s.buffer ++ bytes)))
        (record s { buffer = s.buffer ++ bytes }) k

  disconnect-keeps : (c : Link V) → P c → P (disconnect c)
  unfolding run_call
  disconnect-keeps c k = called calls_disconnect c k

  send-keeps : (p : Packet) (c : Link V) → P c → P (send uv p c)
  unfolding run_call
  send-keeps p c k = called (calls_send p) c k

  on_read-keeps : (i : Incoming) (s : Client V) → P s.link → Holds OnLink (on_read uv i s)
  unfolding on_read
  on_read-keeps (failed code) s k = disconnect-keeps s.link k
  on_read-keeps (received []) s k = k
  on_read-keeps (received (b ∷ bytes)) s k = append_to_buffer-keeps (b ∷ bytes) s k

  if-keeps : (b : Bool) (c d : Link V) → P c → P d → P (if b then c else d)
  if-keeps true c d h k = h
  if-keeps false c d h k = k

  on_heartbeat_timer-keeps : (c : Link V) → P c → P (on_heartbeat_timer uv c)
  unfolding on_heartbeat_timer
  on_heartbeat_timer-keeps c k =
      let read = emit Event.clock_read c in
      let h = emits Event.clock_read c refl k in
      if-keeps (ltb heartbeat_timeout_ms (elapsed_ms uv c)) _ _ (disconnect-keeps read h)
        (send-keeps (packet_of PacketType.heartbeat []) read h)

  serialized-keeps :
      (m : Outcome (List ℕ)) (type : ℕ) (c : Link V)
      → P c
      → Holds P (m >>= λ bytes. returns (send uv (packet_of type bytes) c))
  serialized-keeps (returns bytes) type c k = send-keeps (packet_of type bytes) c k
  serialized-keeps throws type c k = tt
  serialized-keeps stuck type c k = tt

  send_data-keeps : (type : ℕ) (v : V) (c : Link V) → P c → Holds P (send_data uv type v c)
  unfolding send_data
  send_data-keeps type v c k = elim (Option-cases (get_interceptor type c.interceptors)) [
    | inl e ↦ rw (e, send_data) k
    | inr (i, e) ↦ rw (e, send_data) (serialized-keeps (i.serialize v) type c k)
  ]

  pub inner-keeps :
      (s : Client V) (i : Input V) → is_inner i ≡ true → P s.link → Holds OnLink (step uv s i)
  unfolding step
  inner-keeps s (read incoming) h k = on_read-keeps incoming s k
  inner-keeps s timer h k = on_heartbeat_timer-keeps s.link k
  inner-keeps s (send_value type v) h k =
      Holds-bind P OnLink (send_data uv type v s.link) _ (send_data-keeps type v s.link k)
        (λ c h. h)
  inner-keeps s (api x) h k = called x s.link k
  inner-keeps s _ h k = cc
