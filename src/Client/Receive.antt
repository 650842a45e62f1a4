-- ===== src/Client/Receive.antt =====
-- src/client.cpp: from bytes to packets to handlers.
use libuv_net.Base.{
  ℕ, zero, suc, ◌+◌, ◌%◌, ◌^◌, not, List, [], ◌∷◌, ◌++◌, Option, none, some, length, drop, ltb,
  if◌then◌else◌,
}
use libuv_net.Base.Outcome.{Outcome, returns, stuck, ◌>>=◌}
use libuv_net.Base.Map.{lookup}
use libuv_net.Packet.{Abi, Packet, empty_packet, header_size, read_header, deserialize}
use libuv_net.Interceptor.{get_interceptor}
use libuv_net.Uv.{Uv, Incoming, failed, received, Event}
use libuv_net.Client.Defs.{Link, Client, PacketHandler, emit, on_link, disconnect, run_calls}

-- `sizeof(PacketHeader) + header->length`, a `size_t` of 64 bits.
unfoldable pub message_size : Abi → List ℕ → ℕ
message_size abi buffer = (header_size + (read_header abi buffer).length) % 2 ^ 64

module _ {V : Type 0} (uv : Uv) where
  -- The calls do not throw. Where the handler does, or never returns, no later code sees what they
  -- did, so how it ends may stand first.
  unfoldable pub call_handler : PacketHandler → Packet → Link V → Outcome (Link V)
  call_handler h packet l = h.ends packet >>= λ _.
      returns (run_calls uv (h.react packet) (emit (Event.call_packet h.name packet) l))

  -- The handler of the type, or else the default one.
  unfoldable pub dispatch : Packet → Link V → Outcome (Link V)
  unfolding call_handler
  dispatch packet l = elim (lookup packet.type l.packet_handlers) [
    | some h ↦ call_handler h packet l
    | none ↦ elim l.default_packet_handler [ some h ↦ call_handler h packet l | none ↦ returns l ]
  ]

  -- An interceptor only says whether the packet is delivered.
  unfoldable pub gate : Option V → Packet → Link V → Outcome (Link V)
  unfolding dispatch
  gate (some v) packet l = dispatch packet l
  gate none packet l = returns l

  -- What the loop does with a packet; a heartbeat is treated as any other.
  unfoldable pub handle_packet : Packet → Link V → Outcome (Link V)
  unfolding gate dispatch
  handle_packet packet l = elim (get_interceptor packet.type l.interceptors) [
    | some i ↦ i.deserialize packet.payload >>= λ value. gate value packet l
    | none ↦ dispatch packet l
  ]

  -- The `while` of `append_to_buffer`, with fuel.
  unfoldable pub receive_loop : ℕ → Client V → Outcome (Client V)
  receive_loop zero c = stuck
  receive_loop (suc fuel) c =
      let size = message_size uv.abi c.buffer in
      let (packet, parsed) = deserialize uv.abi empty_packet c.buffer size in
      let next = handle_packet packet c.link >>= λ l.
      receive_loop fuel (record c { link = l; buffer = drop size c.buffer }) in
      if ltb (length c.buffer) header_size
      then returns c
      else if ltb (length c.buffer) size
      then returns c
      else if not parsed
      then returns (record c { buffer = [] })
      else next

  -- A round takes twelve bytes at least.
  unfoldable pub append_to_buffer : List ℕ → Client V → Outcome (Client V)
  unfolding receive_loop
  append_to_buffer bytes c =
      receive_loop (suc (length (c.buffer ++ bytes))) (record c { buffer = c.buffer ++ bytes })

  -- The buffer of the read is never deleted.
  unfoldable pub on_read : Incoming → Client V → Outcome (Client V)
  on_read (failed code) c = returns (on_link disconnect c)
  on_read (received []) c = returns c
  on_read (received (b ∷ bytes)) c = append_to_buffer (b ∷ bytes) c
