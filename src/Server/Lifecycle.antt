-- ===== src/Server/Lifecycle.antt =====
-- The server as libuv and its owner drive it: src/server.cpp, one callback or call at a time.
use libuv_net.Base.{
  ℕ, ◌^◌, ◌<◌, ◌≡◌, Bool, true, false, List, [], ◌∷◌, ◌==◌, if◌then◌else◌, Option, none, some,
}
use libuv_net.Base.Outcome.{Outcome, returns, ◌>>=◌}
use libuv_net.Base.Map.{lookup}
use libuv_net.Packet.{Packet}
use libuv_net.Uv.{Uv, done, Peer, Event}
use libuv_net.Session.Defs.{PacketHandler, Conn, Session, on_conn}
use libuv_net.Session.Lifecycle.{Input, closed, step}
use libuv_net.Server.Calls.{SessionHandler, ServerHandler, hook_name}
use libuv_net.Server.Defs.{
  Server, set_connect_handler, set_close_handler, set_packet_handler, set_default_packet_handler,
  new, hook, settle, start, stop, listen, stop_listening, broadcast, send_to, on_connection,
  on_session_closed,
}

-- The closure that `on_connection` has installed, if it has, asks the server's tables of this moment;
-- any other handler stays.
abbrev pub refreshed : {V : Type 0} → ℕ → Server V → Option PacketHandler → Option PacketHandler
refreshed a s none = none
refreshed a s (some h) = if h.name == hook_name then some (hook a s) else some h

-- The session at `a` before a callback.
abbrev pub prepare : {V : Type 0} → ℕ → Server V → Conn V → Conn V
prepare a s c = record c {
  outbox = [];
  default_packet_handler = refreshed a s c.default_packet_handler;
}

-- Whether the last that was done is a call of the closure that the server has given to
-- `set_close_handler`.
abbrev pub has_called : List Event → Bool
has_called (Event.call_close name ∷ es) = name == hook_name
has_called _ = false

module _ {V : Type 0} (at : ℕ → Uv) where
  -- The body of that closure, where `on_close` of the session, now `u`, has called it.
  unfoldable pub ended : Input V → ℕ → Session V → Server V → Server V
  ended closed a u s = if has_called u.history then on_session_closed at a s else s
  ended _ a u s = s

  unfoldable pub on_present : ℕ → Input V → Server V → Option (Session V) → Outcome (Server V)
  unfolding ended settle
  on_present a i s none = returns s
  on_present a i s (some t) =
      step (at a) (on_conn (prepare a s) t) i >>= λ u. returns (ended i a u (settle at a u s))

  -- What happens to the session at `a`.
  unfoldable pub on_session : ℕ → Input V → Server V → Outcome (Server V)
  unfolding on_present
  on_session a i s = on_present a i s (lookup a s.objects)

module _ {V : Type 0} (uv : Uv) (at : ℕ → Uv) where
  -- A new object stands at an address of 64 bits where none stood.
  pub data Step (s : Server V) : Server V → Type 0 where
    accepts :
        (a : ℕ) (peer : Peer)
        → lookup a s.objects ≡ none
        → a < 2 ^ 64
        → Step s (on_connection at done a peer s)
    session : (a : ℕ) (i : Input V) {t : Server V} → on_session at a i s ≡ returns t → Step s t
    broadcasts : (p : Packet) → Step s (broadcast at p s)
    sends_to : (id : List ℕ) (p : Packet) → Step s (send_to at id p s)
    listens : (host : List ℕ) (port : ℕ) → Step s (listen uv host port s)
    stops_listening : Step s (stop_listening s)
    starts : Step s (start s).1
    stops : Step s (stop s)
    sets_connect_handler : (h : SessionHandler) → Step s (set_connect_handler h s)
    sets_close_handler : (h : SessionHandler) → Step s (set_close_handler h s)
    sets_packet_handler : (type : ℕ) (h : ServerHandler) → Step s (set_packet_handler type h s)
    sets_default_packet_handler : (h : ServerHandler) → Step s (set_default_packet_handler h s)

  -- `history` is what was called before the constructor.
  pub data Reach (history : List Event) : Server V → Type 0 where
    here : {s : Server V} → new V true history ≡ returns s → Reach history s
    next : {s t : Server V} → Reach history s → Step s t → Reach history t
