-- ===== src/Server/Defs.antt =====
-- src/server.cpp and include/libuv_net/server.hpp: the state and the operations.
--
-- Each session stands at an address, and `objects` is the memory that they stand in; `sessions` is
-- the vector `sessions_`. A session has its own history, and so has the listening socket; what the
-- calls on the session at `a` return is `at a`.
use libuv_net.Base.{
  ℕ, Bool, true, false, not, List, [], ◌∷◌, ◌++◌, Option, none, some, if◌then◌else◌,
}
use libuv_net.Base.Outcome.{Outcome, returns, throws}
use libuv_net.Base.Map.{Map, lookup, insert}
use libuv_net.Packet.{Packet}
use libuv_net.Packet.PacketType
use libuv_net.Uv.{Uv, Status, done, error, Incoming, failed, received, Peer, Event}
use libuv_net.Session.Defs.{
  PacketHandler, Conn, Session, emit, on_conn, accept, close, send, start as start_session,
  set_packet_handler as set_session_handler,
  set_default_packet_handler as set_default_session_handler,
  set_close_handler as set_session_close_handler, run_calls,
}
use libuv_net.Session.Receive.{append_to_buffer}
use libuv_net.Server.Id.{find_session, remove}
use libuv_net.Server.Calls.{
  SessionHandler, ServerHandler, hook_name, calls_of_all, hand_on, end_of, no_reaction,
}

pub record Server (V : Type 0) : Type 0 where
  pub joinable : Bool  -- loop_thread_.joinable()
  pub should_stop : Bool
  pub is_listening : Bool
  pub socket_closing : Bool  -- uv_is_closing(&server_)
  pub sessions : List ℕ
  pub objects : Map (Session V)
  pub connect_handler : Option SessionHandler
  pub close_handler : Option SessionHandler
  pub packet_handlers : Map ServerHandler
  pub default_packet_handler : Option ServerHandler
  pub history : List Event

-- The constructor; `created` says whether `uv_loop_new` gave a loop.
unfoldable pub new : (V : Type 0) → Bool → List Event → Outcome (Server V)
new V false history = throws
new V true history = returns (record {
  joinable = false;
  should_stop = false;
  is_listening = false;
  socket_closing = false;
  sessions = [];
  objects = [];
  connect_handler = none;
  close_handler = none;
  packet_handlers = [];
  default_packet_handler = none;
  history = Event.tcp_init ∷ history;
})

module _ {V : Type 0} where
  unfoldable pub set_connect_handler : SessionHandler → Server V → Server V
  set_connect_handler h s = record s { connect_handler = some h }

  unfoldable pub set_close_handler : SessionHandler → Server V → Server V
  set_close_handler h s = record s { close_handler = some h }

  unfoldable pub set_packet_handler : ℕ → ServerHandler → Server V → Server V
  set_packet_handler type h s = record s { packet_handlers = insert type h s.packet_handlers }

  unfoldable pub set_default_packet_handler : ServerHandler → Server V → Server V
  set_default_packet_handler h s = record s { default_packet_handler = some h }

  unfoldable pub start : Server V → Bool × Server V
  start s =
      if s.joinable then (false, s) else (true, record s { should_stop = false; joinable = true })

  unfoldable pub stop : Server V → Server V
  stop s = if not s.joinable then s else record s { should_stop = true; joinable = false }

  close_socket : Server V → Server V
  close_socket s =
      if not s.socket_closing
      then record s { socket_closing = true; history = Event.close ∷ s.history }
      else s

  unfoldable pub stop_listening : Server V → Server V
  unfolding close_socket
  stop_listening s =
      if not s.is_listening then s else record (close_socket s) { is_listening = false }

  -- `~Server`
  unfoldable pub destroy : Server V → Server V
  unfolding stop stop_listening
  destroy s = stop (stop_listening s)

  -- The handler of the packet's type, or else the default one.
  abbrev pub server_handler : Server V → Packet → Option ServerHandler
  server_handler s packet = elim (lookup packet.type s.packet_handlers) [
    | some h ↦ some h
    | none ↦ s.default_packet_handler
  ]

  -- The default handler that the session at `a` has: it asks the server's tables.
  abbrev pub hook : ℕ → Server V → PacketHandler
  hook a s = record {
    name = hook_name;
    react = λ packet. hand_on a s.sessions (server_handler s packet) packet;
    ends = λ packet. end_of (server_handler s packet) packet;
  }

  abbrev pub on_object : (Conn V → Conn V) → Option (Session V) → Option (Session V)
  on_object f (some s) = some (on_conn f s)
  on_object f none = none

  abbrev put_object : ℕ → Option (Session V) → Server V → Server V
  put_object a (some t) s = record s { objects = insert a t s.objects }
  put_object a none s = s

  -- A call on the session at `a`.
  unfoldable pub with_conn : ℕ → (Conn V → Conn V) → Server V → Server V
  with_conn a f s = put_object a (on_object f (lookup a s.objects)) s

module _ {V : Type 0} (uv : Uv) where
  listening : Status → Server V → Server V
  listening done s = record s { is_listening = true }
  listening (error code) s = s

  bound : Status → Server V → Server V
  unfolding listening
  bound done s = listening (uv.listen s.history) (record s { history = Event.listen ∷ s.history })
  bound (error code) s = s

  -- What `uv_ip4_addr` says of the host is not looked at.
  unfoldable pub listen : List ℕ → ℕ → Server V → Server V
  unfolding bound
  listen host port s =
      if s.is_listening
      then s
      else bound (uv.tcp_bind s.history) (record s { history = Event.bind host port ∷ s.history })

module _ {V : Type 0} (at : ℕ → Uv) where
  unfoldable pub send_all : Packet → List ℕ → Server V → Server V
  send_all packet [] s = s
  send_all packet (a ∷ rest) s = send_all packet rest (with_conn a (send (at a) packet) s)

  unfoldable pub broadcast : Packet → Server V → Server V
  unfolding send_all
  broadcast packet s = send_all packet s.sessions s

  unfoldable pub send_found : Option ℕ → Packet → Server V → Server V
  send_found (some a) packet s = with_conn a (send (at a) packet) s
  send_found none packet s = s

  unfoldable pub send_to : List ℕ → Packet → Server V → Server V
  unfolding send_found
  send_to id packet s = send_found (find_session id s.sessions) packet s

  -- The sends that the handlers of one session have asked of others.
  unfoldable pub deliver : List (ℕ × Packet) → Server V → Server V
  deliver [] s = s
  deliver ((b, packet) ∷ rest) s = deliver rest (with_conn b (send (at b) packet) s)

  -- The session at `a` as a callback leaves it.
  unfoldable pub settle : ℕ → Session V → Server V → Server V
  unfolding deliver
  settle a u s = deliver u.outbox (record s { objects = insert a u s.objects })

  unfoldable pub notify_session : ℕ → List ℕ → Option SessionHandler → (ℕ → Event) → Conn V → Conn V
  notify_session a sessions none event c = c
  notify_session a sessions (some h) event c =
      run_calls (at a) (calls_of_all a sessions h.react) (emit (event h.name) c)

  -- What the connection callback makes of the session at `a`.
  unfoldable pub welcome : ℕ → Server V → Conn V → Conn V
  unfolding notify_session
  welcome a s c = notify_session a s.sessions s.connect_handler Event.call_server_connect (
      start_session (at a) (
        set_session_close_handler hook_name (
          set_default_session_handler (hook a s)
            (set_session_handler PacketType.heartbeat no_reaction c))))

  unfoldable pub on_connection : Status → ℕ → Peer → Server V → Server V
  unfolding welcome settle
  on_connection (error code) a peer s = s
  on_connection done a peer s =
      let t = record s { sessions = s.sessions ++ a ∷ [] } in
      settle a (on_conn (welcome a t) (accept V a peer [])) t

  -- The same but for the test of the status; nothing calls it.
  unfoldable pub handle_new_session : ℕ → Peer → Server V → Server V
  unfolding on_connection
  handle_new_session a peer s = on_connection done a peer s

  -- The session at `a` is given to the close handler.
  abbrev pub see_off : ℕ → Server V → Conn V → Conn V
  see_off a s c =
      notify_session a s.sessions s.close_handler Event.call_server_close (record c { outbox = [] })

  unfoldable pub notify_closed : ℕ → Option (Session V) → Server V → Server V
  unfolding notify_session settle
  notify_closed a none s = s
  notify_closed a (some u) s = settle a (on_conn (see_off a s) u) s

  -- The close handler that the connection callback installs has the same body.
  unfoldable pub on_session_closed : ℕ → Server V → Server V
  unfolding notify_closed
  on_session_closed a s =
      notify_closed a (lookup a s.objects) (record s { sessions = remove a s.sessions })

  -- `Server::on_read`, which nothing installs
  unfoldable pub on_read : ℕ → Incoming → Session V → Outcome (Session V)
  on_read a (failed code) s = returns (on_conn close s)
  on_read a (received []) s = returns s
  on_read a (received (b ∷ bytes)) s = append_to_buffer (at a) (b ∷ bytes) s
