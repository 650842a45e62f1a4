-- ===== src/Server/Relay.antt =====
-- A handler that calls the server: a packet that comes in on one session of src/server.cpp and goes
-- out on all of them.
use libuv_net.Base.{
  ℕ, ◌≡◌, refl, ap, ◌∙◌, false, List, [], ◌∷◌, ◌++◌, map, append-nil, none, some, ◌==◌,
  if◌then◌else◌,
}
use libuv_net.Base.Outcome.{returns}
use libuv_net.Base.Map.{lookup}
use libuv_net.Packet.{Packet, serialize}
use libuv_net.Packet.Header.{IsByteAbi}
use libuv_net.Packet.RoundTrip.{IsWire}
use libuv_net.Packet.PacketType
use libuv_net.Uv.{Uv, Event, received}
use libuv_net.Session.Defs.{
  Conn, Session, emit, send, run_calls, run_call, set_default_packet_handler,
}
use libuv_net.Session.Receive.{handle_packet, on_read}
use libuv_net.Session.Refinement.{session}
use libuv_net.Session.Reads.{on_read-one_packet}
use libuv_net.Session.Lifecycle.{read, step}
use libuv_net.Server.Id.{remove}
use libuv_net.Server.Calls.{ServerHandler, calls_broadcast, send_on, hook_name}
use libuv_net.Server.Defs.{Server, server_handler, on_object, settle}
use libuv_net.Server.Lifecycle.{Reach, prepare, on_session, on_present, ended}
use libuv_net.Server.Objects.{mem}
use libuv_net.Server.Sessions.{Reach-IsServed}
use libuv_net.Server.Dispatch.{Reach-delivers}
use libuv_net.Server.Outbox.{to_each, asking, run_calls-send_on, outbox-sent, lookup-settle}

-- A read that brings the image of one packet to an empty buffer.
pub on_read-serialize :
    {V : Type 0} (uv : Uv) (c d : Conn V) (p : Packet)
    → c.read_handler ≡ none
    → IsByteAbi uv.abi
    → IsWire p
    → handle_packet uv p c ≡ returns d
    → on_read uv (received (serialize uv.abi p)) (session c [])
      ≡ returns (session (emit Event.delete_buffer d) [])
on_read-serialize uv c d p unread pads wire handled =
    on_read-one_packet uv c p unread pads wire ∙ rw handled refl

module _ {V : Type 0} (at : ℕ → Uv) (q : Packet) where
  -- What the session at `a` makes of a packet if the server's handler for it broadcasts another
  -- one.
  handled_broadcast :
      (uv : Uv) (history : List Event) (s : Server V) (a : ℕ) (t : Session V) (p : Packet)
      (h : ServerHandler)
      → Reach uv at history s
      → lookup a s.objects ≡ some t
      → p.type == PacketType.heartbeat ≡ false
      → server_handler s p ≡ some h
      → h.react p ≡ calls_broadcast q ∷ []
      → h.ends p ≡ returns tt
      → let c =
          emit
            (Event.call_server_packet h.name p)
            (emit (Event.call_packet hook_name p) (prepare a s t.conn)) in
        (d : Conn V) × (handle_packet (at a) p (prepare a s t.conn) ≡ returns d)
        × (d ≡ record (if mem a s.sessions then send (at a) q c else c) { outbox = d.outbox })
        × (d.outbox ≡ to_each q (remove a s.sessions))
  unfolding run_calls run_call set_default_packet_handler
  handled_broadcast uv history s a t p h r found kind chosen reaction ending =
      let c =
        emit (Event.call_server_packet h.name p)
          (emit (Event.call_packet hook_name p) (prepare a s t.conn)) in
      let once = (Reach-IsServed uv at history s r).distinct in
      let sent = if mem a s.sessions then send (at a) q c else c in
      (
        asking (at a) a q (remove a s.sessions) sent,
        Reach-delivers at uv history s r a t p found
            ∙ rw kind (
                rw chosen (
                  rw ending (
                    rw reaction (
                      rw (append-nil (map (send_on a q) s.sessions))
                        (ap returns (run_calls-send_on (at a) a q s.sessions c once)))))),
        refl,
        ap (λ o. o ++ to_each q (remove a s.sessions)) (outbox-sent (at a) q (mem a s.sessions) c),
      )

  -- In a reachable state, let the image of a packet that is no heartbeat come in on a session whose
  -- buffer is empty and which has no read handler, and let the server's handler for it do nothing
  -- but broadcast another packet, and return. Then the callback does not throw. That session sends
  -- the other packet once if it is on the list, its buffer is empty again, and the buffer of the
  -- read is deleted; each other session on the list sends the other packet once; and all other
  -- objects are as they were.
  pub read_broadcasts :
      (uv : Uv) (history : List Event) (s : Server V) (a : ℕ) (old : Conn V) (p : Packet)
      (h : ServerHandler)
      → Reach uv at history s
      → lookup a s.objects ≡ some (session old [])
      → old.read_handler ≡ none
      → IsByteAbi (at a).abi
      → IsWire p
      → p.type == PacketType.heartbeat ≡ false
      → server_handler s p ≡ some h
      → h.react p ≡ calls_broadcast q ∷ []
      → h.ends p ≡ returns tt
      → let c =
          emit
            (Event.call_server_packet h.name p)
            (emit (Event.call_packet hook_name p) (prepare a s old)) in
        (r : Server V) × (d : Conn V) × (on_session at a
            (read (received (serialize (at a).abi p)))
            s
          ≡ returns r)
        × (d
            ≡ emit Event.delete_buffer
                (record (if mem a s.sessions then send (at a) q c else c) { outbox = d.outbox }))
        × ((b : ℕ)
            → lookup b r.objects ≡ (
                if a == b
                then some (session d [])
                else if mem b s.sessions
                then on_object (send (at b) q) (lookup b s.objects)
                else lookup b s.objects))
  unfolding on_session on_present step ended set_default_packet_handler
  read_broadcasts uv history s a old p h reached found unread pads wire kind chosen reaction
        ending =
      let (d, handled, shape, asked) =
        handled_broadcast uv history s a (session old []) p h reached found kind chosen reaction
          ending in
      let u = session (emit Event.delete_buffer d) [] in
      (
        settle at a u s,
        emit Event.delete_buffer d,
        rw found (rw (on_read-serialize (at a) (prepare a s old) d p unread pads wire handled)),
        ap (emit Event.delete_buffer) shape,
        λ b. lookup-settle at q a u s b (Reach-IsServed uv at history s reached).distinct asked,
      )
