-- ===== src/Session/Content.antt =====
-- A session with an interceptor for JSON or Protobuf: src/session.cpp with json_interceptor.hpp and
-- protobuf_interceptor.hpp of include/libuv_net.
use libuv_net.Base.{
  ◌≡◌, refl, ap, ◌∙◌, [], true, false, ◌&&◌, Bool, Option, none, some, if◌then◌else◌, arith,
}
use libuv_net.Base.Outcome.{Outcome, returns, throws, ◌>>=◌, bind_assoc}
use libuv_net.Base.Map.{lookup}
use libuv_net.Packet.{Packet, serialize}
use libuv_net.Packet.Header.{IsByteAbi}
use libuv_net.Packet.RoundTrip.{IsWire}
use libuv_net.Packet.PacketType
use libuv_net.Interceptor.{get_interceptor}
use libuv_net.Interceptor.Laws.{get_interceptor-add_interceptor}
use libuv_net.Interceptor.Any.{Any}
use libuv_net.Interceptor.Json
use libuv_net.Interceptor.Json.{
  JsonLibrary, Parsed, document, parse_error, out_of_range, json_interceptor,
}
use libuv_net.Interceptor.Protobuf
use libuv_net.Interceptor.Protobuf.{ProtobufLibrary, protobuf_interceptor, parsed}
use libuv_net.Uv.{Uv, Event, received}
use libuv_net.Session.Defs.{Conn, Session, PacketHandler, emit, run_calls, add_session_interceptor}
use libuv_net.Session.Receive.{call_handler, dispatch, gate, handle_packet, on_read}
use libuv_net.Session.Refinement.{session}
use libuv_net.Session.Reads.{on_read-one_packet}

abbrev pub is_some : {A : Type 0} → Option A → Bool
is_some (some x) = true
is_some none = false

module _ {J M : Type 0} (uv : Uv) (c : Conn (Any J M)) (p : Packet) where
  -- A JSON packet is delivered if the library parses its content, dropped if it does not, and ends
  -- the read with an exception if the library finds a number out of range.
  pub handle_packet-json_interceptor :
      (lib : JsonLibrary J)
      → p.type ≡ PacketType.json
      → get_interceptor p.type c.interceptors ≡ some (json_interceptor lib)
      → handle_packet uv p c ≡ (elim (lib.parse p.payload) [
        | document j ↦ dispatch uv p c
        | parse_error ↦ returns c
        | out_of_range ↦ throws
      ])
  unfolding handle_packet gate json_interceptor Json.deserialize
  handle_packet-json_interceptor lib type found = ground (arith, type, found)

  -- A Protobuf packet is delivered if the pool knows the type that is looked up and the content
  -- parses, and dropped otherwise: where the type is not known, every packet is dropped.
  pub handle_packet-protobuf_interceptor :
      (lib : ProtobufLibrary M)
      → p.type ≡ PacketType.protobuf
      → get_interceptor p.type c.interceptors ≡ some (protobuf_interceptor lib)
      → handle_packet uv p c
        ≡ (if lib.known && is_some (lib.parse p.payload) then dispatch uv p c else returns c)
  unfolding handle_packet gate protobuf_interceptor Protobuf.deserialize parsed
  handle_packet-protobuf_interceptor lib type found = ground (arith, type, found)

module _ {J M : Type 0} (lib : JsonLibrary J) (protobuf : ProtobufLibrary M)
    (c0 : Conn (Any J M)) where
  -- The session after both calls of `add_interceptor`.
  abbrev pub equipped : Conn (Any J M)
  equipped =
      add_session_interceptor (protobuf_interceptor protobuf)
        (add_session_interceptor (json_interceptor lib) c0)

  -- The session after the read of a packet that is dropped, and of one that its handler gets.
  abbrev pub dropped : Session (Any J M)
  dropped = session (emit Event.delete_buffer equipped) []

  finds_protobuf :
      get_interceptor PacketType.protobuf equipped.interceptors
      ≡ some (protobuf_interceptor protobuf)
  unfolding add_session_interceptor protobuf_interceptor
  finds_protobuf = get_interceptor-add_interceptor _ _ PacketType.protobuf

  finds_json : get_interceptor PacketType.json equipped.interceptors ≡ some (json_interceptor lib)
  unfolding add_session_interceptor protobuf_interceptor json_interceptor
  finds_json =
      get_interceptor-add_interceptor _ _ PacketType.json
      ∙ get_interceptor-add_interceptor _ c0.interceptors PacketType.json

module _ {J M : Type 0} (uv : Uv) (lib : JsonLibrary J) (protobuf : ProtobufLibrary M)
    (c0 : Conn (Any J M)) where
  abbrev pub handed : PacketHandler → Packet → Outcome (Session (Any J M))
  handed h p = h.ends p >>= λ _. returns (
      session
        (emit Event.delete_buffer
          (run_calls uv (h.react p) (emit (Event.call_packet h.name p) (equipped lib protobuf c0))))
        [])

  -- What is left to do after the packet.
  abbrev rest : Conn (Any J M) → Outcome (Session (Any J M))
  rest d = returns (session (emit Event.delete_buffer d) [])

  dispatch-handler :
      (h : PacketHandler) (p : Packet)
      → lookup p.type c0.packet_handlers ≡ some h
      → dispatch uv p (equipped lib protobuf c0) ≡ call_handler uv h p (equipped lib protobuf c0)
  unfolding dispatch lookup run_calls add_session_interceptor
  dispatch-handler h p found = rw (found, dispatch) refl

  dispatch-found :
      (h : PacketHandler) (p : Packet)
      → lookup p.type c0.packet_handlers ≡ some h
      → (dispatch uv p (equipped lib protobuf c0) >>= rest) ≡ handed h p
  unfolding call_handler
  dispatch-found h p found =
      ap (λ m. m >>= rest) (dispatch-handler h p found) ∙ bind_assoc (h.ends p) _ rest

  read_json :
      (o : Parsed J) (h : PacketHandler) (p : Packet)
      → lookup p.type c0.packet_handlers ≡ some h
      → ((elim o [
        | document j ↦ dispatch uv p (equipped lib protobuf c0)
        | parse_error ↦ returns (equipped lib protobuf c0)
        | out_of_range ↦ throws
      ])
          >>= rest)
        ≡ (elim o [
          | document j ↦ handed h p
          | parse_error ↦ returns (dropped lib protobuf c0)
          | out_of_range ↦ throws
        ])
  read_json (document j) h p found = dispatch-found h p found
  read_json parse_error h p found = refl
  read_json out_of_range h p found = refl

  read_protobuf :
      (b : Bool) (h : PacketHandler) (p : Packet)
      → lookup p.type c0.packet_handlers ≡ some h
      → ((if b
            then dispatch uv p (equipped lib protobuf c0)
            else returns (equipped lib protobuf c0))
          >>= rest)
        ≡ (if b then handed h p else returns (dropped lib protobuf c0))
  read_protobuf true h p found = dispatch-found h p found
  read_protobuf false h p found = refl

-- A session that was given both interceptors, with handlers for JSON and Protobuf, an empty buffer
-- and no read handler, reads one packet. A JSON packet that the library parses is handed to the
-- handler of its type once, whose calls are made, and if the handler returns, the buffer of the
-- read is then deleted; one that it does not parse is dropped; where it finds a number out of
-- range, the read ends with an exception. A Protobuf packet is handed to its handler if the pool
-- knows the type that is looked up and the content parses, and dropped otherwise, so that each is
-- dropped where it is not known.
pub on_read-interceptors :
    {J M : Type 0} (uv : Uv) (lib : JsonLibrary J) (protobuf : ProtobufLibrary M)
    (c0 : Conn (Any J M)) (p q : Packet) (h k : PacketHandler)
    → c0.read_handler ≡ none
    → IsByteAbi uv.abi
    → IsWire p
    → IsWire q
    → p.type ≡ PacketType.json
    → q.type ≡ PacketType.protobuf
    → lookup p.type c0.packet_handlers ≡ some h
    → lookup q.type c0.packet_handlers ≡ some k
    → (on_read uv (received (serialize uv.abi p)) (session (equipped lib protobuf c0) [])
        ≡ (elim (lib.parse p.payload) [
          | document j ↦ handed uv lib protobuf c0 h p
          | parse_error ↦ returns (dropped lib protobuf c0)
          | out_of_range ↦ throws
        ]))
      × (on_read uv (received (serialize uv.abi q)) (session (equipped lib protobuf c0) []) ≡ (
          if protobuf.known && is_some (protobuf.parse q.payload)
          then handed uv lib protobuf c0 k q
          else returns (dropped lib protobuf c0)))
unfolding add_session_interceptor
on_read-interceptors {J} {M} uv lib protobuf c0 p q h k unread pads wire wire_too is_json
      is_protobuf found also =
    let c = equipped lib protobuf c0 in
    let after = rest uv lib protobuf c0 in
    (
      on_read-one_packet uv c p unread pads wire
          ∙ ap (λ m. m >>= after)
              (handle_packet-json_interceptor uv c p lib is_json
                (rw is_json (finds_json lib protobuf c0)))
          ∙ read_json uv lib protobuf c0 (lib.parse p.payload) h p found,
      on_read-one_packet uv c q unread pads wire_too
          ∙ ap (λ m. m >>= after)
              (handle_packet-protobuf_interceptor uv c q protobuf is_protobuf
                (rw is_protobuf (finds_protobuf lib protobuf c0)))
          ∙ read_protobuf uv lib protobuf c0 (protobuf.known && is_some (protobuf.parse q.payload))
              k q also,
    )
