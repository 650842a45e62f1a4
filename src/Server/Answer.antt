-- ===== src/Server/Answer.antt =====
-- A handler of src/server.cpp that answers on its own session.
use libuv_net.Base.{
  ℕ, ◌≡◌, refl, ◌∙◌, false, List, [], ◌∷◌, none, some, ◌==◌, if◌then◌else◌, ap, arith,
}
use libuv_net.Base.Outcome.{returns}
use libuv_net.Base.Map.{lookup, insert, lookup-insert}
use libuv_net.Packet.{Packet, serialize}
use libuv_net.Packet.Header.{IsByteAbi}
use libuv_net.Packet.RoundTrip.{IsWire}
use libuv_net.Packet.PacketType
use libuv_net.Uv.{Uv, Event, received}
use libuv_net.Session.Defs.{
  Conn, calls_send, emit, send, run_calls, run_call, set_default_packet_handler,
}
use libuv_net.Session.Receive.{handle_packet}
use libuv_net.Session.Refinement.{session}
use libuv_net.Session.Lifecycle.{read, step}
use libuv_net.Server.Calls.{ServerHandler, calls_session, hook_name}
use libuv_net.Server.Defs.{Server, server_handler, settle, deliver}
use libuv_net.Server.Lifecycle.{Reach, prepare, on_session, on_present, ended}
use libuv_net.Server.Dispatch.{Reach-delivers}
use libuv_net.Server.Relay.{on_read-serialize}

send-outbox : {V : Type 0} (uv : Uv) (q : Packet) (c : Conn V) → (send uv q c).outbox ≡ c.outbox
unfolding send
send-outbox uv q c = ground arith

-- In a reachable state, let the image of a packet that is no heartbeat come in on a session whose
-- buffer is empty and which has no read handler, and let the server's handler for it do nothing but
-- send one packet on that session, and return. Then the callback does not throw, the session has
-- sent that packet once, its buffer is empty, the buffer of the read is deleted, and no other
-- object changes, nor do the handlers of the server.
pub read_answers :
    {V : Type 0} (at : ℕ → Uv) (uv : Uv) (history : List Event) (s : Server V) (a : ℕ)
    (old : Conn V) (p q : Packet) (h : ServerHandler)
    → Reach uv at history s
    → lookup a s.objects ≡ some (session old [])
    → old.read_handler ≡ none
    → IsByteAbi (at a).abi
    → IsWire p
    → p.type == PacketType.heartbeat ≡ false
    → server_handler s p ≡ some h
    → h.react p ≡ calls_session (calls_send q) ∷ []
    → h.ends p ≡ returns tt
    → let c =
        emit
          (Event.call_server_packet h.name p)
          (emit (Event.call_packet hook_name p) (prepare a s old)) in
      (r : Server V) × (on_session at a (read (received (serialize (at a).abi p))) s ≡ returns r)
      × ((b : ℕ)
          → lookup b r.objects ≡ (
              if a == b
              then some (session (emit Event.delete_buffer (send (at a) q c)) [])
              else lookup b s.objects))
      × ((x : Packet) → server_handler r x ≡ server_handler s x)
unfolding on_session on_present step ended set_default_packet_handler run_calls run_call settle
    deliver
read_answers at uv history s a old p q h reached found unread pads wire kind chosen reaction
      ending =
    let c =
      emit (Event.call_server_packet h.name p)
        (emit (Event.call_packet hook_name p) (prepare a s old)) in
    let d = send (at a) q c in
    let handled : handle_packet (at a) p (prepare a s old) ≡ returns d =
      Reach-delivers at uv history s reached a (session old []) p found
      ∙ rw kind (rw chosen (rw ending (rw reaction refl))) in
    let u = session (emit Event.delete_buffer d) [] in
    (
      record s { objects = insert a u s.objects },
      rw found (
          rw (on_read-serialize (at a) (prepare a s old) d p unread pads wire handled) (
            ap (λ out. returns (deliver at out (record s { objects = insert a u s.objects })))
              (send-outbox (at a) q c))),
      λ b. lookup-insert a b u s.objects,
      λ x. refl,
    )
