-- ===== src/Server/Delivery.antt =====
-- Where the packets of a session go that src/server.cpp has accepted.
use libuv_net.Base.{ℕ, ◌≡◌, refl, ap, List, [], ◌∷◌, Option, none, some, ◌==◌, if◌then◌else◌, arith}
use libuv_net.Base.Outcome.{returns, ◌>>=◌}
use libuv_net.Base.Map.{lookup, insert}
use libuv_net.Packet.{Packet}
use libuv_net.Packet.PacketType
use libuv_net.Interceptor.{get_interceptor}
use libuv_net.Uv.{Uv, Peer, inet, inet6, Event}
use libuv_net.Session.Defs.{
  Conn, emit, accept, run_calls, set_packet_handler, set_default_packet_handler, set_close_handler,
  start as start_session,
}
use libuv_net.Session.Receive.{call_handler, dispatch, handle_packet}
use libuv_net.Session.Delivery.{Tables, tables, run_calls_keeps}
use libuv_net.Server.Calls.{SessionHandler, hook_name, calls_of_all, hand_on, end_of, no_reaction}
use libuv_net.Server.Defs.{Server, hook, server_handler, notify_session, welcome}

module _ {V : Type 0} (at : ℕ → Uv) (a : ℕ) (s : Server V) where
  -- The tables that the connection callback leaves.
  abbrev pub welcomed : Tables V
  welcomed = record {
    packet_handlers = (PacketType.heartbeat, no_reaction) ∷ [];
    default_packet_handler = some (hook a s);
    interceptors = [];
  }

  notify_session-tables :
      (ids : List ℕ) (o : Option SessionHandler) (event : ℕ → Event) (c : Conn V)
      → tables (notify_session at a ids o event c) ≡ tables c
  unfolding notify_session
  notify_session-tables ids none event c = refl
  notify_session-tables ids (some h) event c =
      (run_calls_keeps (at a) (calls_of_all a ids h.react) (emit (event h.name) c)).0

  pub tables-welcome : (peer : Peer) → tables (welcome at a s (accept V a peer []).conn) ≡ welcomed
  unfolding welcome accept start_session set_packet_handler set_default_packet_handler
      set_close_handler insert
  tables-welcome (inet address port) =
      notify_session-tables s.sessions s.connect_handler Event.call_server_connect _
  tables-welcome (inet6 address port) =
      notify_session-tables s.sessions s.connect_handler Event.call_server_connect _

  pub handle_packet-of_welcomed :
      (uv : Uv) (p : Packet) (c : Conn V)
      → tables c ≡ welcomed
      → handle_packet uv p c ≡ (
          if p.type == PacketType.heartbeat
          then returns (emit Event.clock_read (record c { last_heartbeat = uv.clock c.history }))
          else end_of (server_handler s p) p >>= λ _. returns (
              run_calls uv
                (hand_on a s.sessions (server_handler s p) p)
                (emit (Event.call_packet hook_name p) c)))
  unfolding handle_packet dispatch call_handler get_interceptor lookup
  handle_packet-of_welcomed uv p c e = ground (
    arith,
    ap (λ (t : Tables V). t.packet_handlers) e,
    ap (λ (t : Tables V). t.default_packet_handler) e,
    ap (λ (t : Tables V). t.interceptors) e,
  )

  -- A session that the server has accepted, as its connection callback leaves it, hands every
  -- packet but a heartbeat to the server's handler of its type, or else to the server's default
  -- handler; a heartbeat reaches none and sets the time of the last heartbeat.
  pub handle_packet-welcome :
      (peer : Peer) (p : Packet)
      → let c = welcome at a s (accept V a peer []).conn in
        handle_packet (at a) p c ≡ (
          if p.type == PacketType.heartbeat
          then returns
              (emit Event.clock_read (record c { last_heartbeat = (at a).clock c.history }))
          else end_of (server_handler s p) p >>= λ _. returns (
              run_calls
                (at a)
                (hand_on a s.sessions (server_handler s p) p)
                (emit (Event.call_packet hook_name p) c)))
  handle_packet-welcome peer p =
      handle_packet-of_welcomed (at a) p (welcome at a s (accept V a peer []).conn)
        (tables-welcome peer)
