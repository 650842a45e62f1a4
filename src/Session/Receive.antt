-- ===== src/Session/Receive.antt =====
-- src/session.cpp: from bytes to packets to handlers.
use libuv_net.Base.{
  ℕ, zero, suc, ◌+◌, ◌%◌, ◌^◌, Bool, true, false, List, [], ◌∷◌, ◌++◌, Option, none, some, length,
  drop, ltb, ◌==◌, if◌then◌else◌,
}
use libuv_net.Base.Outcome.{Outcome, returns, stuck, ◌>>=◌}
use libuv_net.Base.Map.{lookup}
use libuv_net.Packet.{Abi, Packet, empty_packet, header_size, read_header, deserialize}
use libuv_net.Packet.PacketType
use libuv_net.Interceptor.{get_interceptor}
use libuv_net.Uv.{Uv, Incoming, failed, received, Event}
use libuv_net.Session.Defs.{Conn, Session, PacketHandler, emit, on_conn, close, run_calls}

abbrev pub is_empty {ℓ} : {A : Type ℓ} → List A → Bool
is_empty [] = true
is_empty (x ∷ xs) = false

-- `sizeof(PacketHeader) + header->length`, a `size_t` of 64 bits.
unfoldable pub message_size : Abi → List ℕ → ℕ
message_size abi buffer = (header_size + (read_header abi buffer).length) % 2 ^ 64

module _ {V : Type 0} (uv : Uv) where
  -- The calls do not throw. Where the handler does, or never returns, no later code sees what they
  -- did, so how it ends may stand first.
  unfoldable pub call_handler : PacketHandler → Packet → Conn V → Outcome (Conn V)
  call_handler h packet c = h.ends packet >>= λ _.
      returns (run_calls uv (h.react packet) (emit (Event.call_packet h.name packet) c))

  -- The handler of the type, or else the default one.
  unfoldable pub dispatch : Packet → Conn V → Outcome (Conn V)
  unfolding call_handler
  dispatch packet c = elim (lookup packet.type c.packet_handlers) [
    | some h ↦ call_handler h packet c
    | none ↦ elim c.default_packet_handler [ some h ↦ call_handler h packet c | none ↦ returns c ]
  ]

  -- An interceptor only says whether the packet is delivered.
  unfoldable pub gate : Option V → Packet → Conn V → Outcome (Conn V)
  unfolding dispatch
  gate (some v) packet c = dispatch packet c
  gate none packet c = returns c

  unfoldable pub handle_packet : Packet → Conn V → Outcome (Conn V)
  unfolding gate dispatch
  handle_packet packet c =
      if packet.type == PacketType.heartbeat
      then returns (emit Event.clock_read (record c { last_heartbeat = uv.clock c.history }))
      else elim (get_interceptor packet.type c.interceptors) [
        | some i ↦ i.deserialize packet.payload >>= λ value. gate value packet c
        | none ↦ dispatch packet c
      ]

  -- The `while` of `process_buffer`, with fuel.
  unfoldable pub process_loop : ℕ → Session V → Outcome (Session V)
  process_loop zero s = stuck
  process_loop (suc fuel) s =
      let size = message_size uv.abi s.read_buffer in
      let (packet, parsed) = deserialize uv.abi empty_packet s.read_buffer size in
      let next = handle_packet packet s.conn >>= λ c.
      process_loop fuel (record s { conn = c; read_buffer = drop size s.read_buffer }) in
      if is_empty s.read_buffer
      then returns s
      else if ltb (length s.read_buffer) header_size
      then returns s
      else if ltb (length s.read_buffer) size
      then returns s
      else if parsed
      then next
      else returns (record s { read_buffer = [] })

  -- A round takes twelve bytes at least.
  unfoldable pub process_buffer : Session V → Outcome (Session V)
  unfolding process_loop
  process_buffer s = process_loop (suc (length s.read_buffer)) s

  unfoldable pub append_to_buffer : List ℕ → Session V → Outcome (Session V)
  append_to_buffer bytes s = process_buffer (record s { read_buffer = s.read_buffer ++ bytes })

  -- The buffer of the read is deleted only where bytes have come in.
  unfoldable pub on_read : Incoming → Session V → Outcome (Session V)
  on_read (failed code) s = returns (on_conn close s)
  on_read (received []) s = returns s
  on_read (received (b ∷ bytes)) s =
      (elim s.read_handler [
        | some h ↦ h.ends (b ∷ bytes) >>= λ _. returns (
            on_conn
              (λ c.
                run_calls uv (h.react (b ∷ bytes)) (emit (Event.call_read h.name (b ∷ bytes)) c))
              s)
        | none ↦ append_to_buffer (b ∷ bytes) s
      ])
      >>= λ t. returns (on_conn (emit Event.delete_buffer) t)
