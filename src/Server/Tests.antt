-- ===== src/Server/Tests.antt =====
-- A server with two sessions.
use libuv_net.Base.{
  ℕ, ◌+◌, ◌≡◌, refl, true, false, not, ◌&&◌, ◌||◌, [], ◌∷◌, none, ◌==◌, if◌then◌else◌, arith,
}
use libuv_net.Base.Outcome.{returns}
use libuv_net.Base.Map.{lookup, insert}
use libuv_net.Uv.{Uv, inet, done, error, Peer, Event, closes}
use libuv_net.Samples.{willing, greeting}
use libuv_net.Session.Defs.{accept}
use libuv_net.Server.Id.{id_of}
use libuv_net.Server.Defs.{Server, new, broadcast, send_to, on_connection, listen, stop_listening}
use libuv_net.Server.Lifecycle.{Reach, here, next, accepts}
use libuv_net.Session.Defs.{
  start as start_session, set_packet_handler as set_session_handler,
  set_default_packet_handler as set_default_session_handler,
  set_close_handler as set_session_close_handler,
}
use libuv_net.Server.Served.{IsServed}
use libuv_net.Server.Sessions.{Reach-IsServed}
use libuv_net.Server.View.{view, send_where, sends_refine}
use libuv_net.Server.Listening.{succeeds, listens_and_stops}

abbrev everywhere : ℕ → Uv
everywhere a = willing

abbrev localhost : Peer
localhost = inet [] 80

abbrev first : Server ℕ
first = record {
  joinable = false;
  should_stop = false;
  is_listening = false;
  socket_closing = false;
  sessions = [];
  objects = [];
  connect_handler = none;
  close_handler = none;
  packet_handlers = [];
  default_packet_handler = none;
  history = Event.tcp_init ∷ [];
}

first_made : new ℕ true [] ≡ returns first
unfolding new
first_made = refl

abbrev two : Server ℕ
two = on_connection everywhere done 32 localhost (on_connection everywhere done 16 localhost first)

unheld : lookup 32 (on_connection everywhere done 16 localhost first).objects ≡ none
unfolding on_connection lookup insert start_session set_session_close_handler
    set_default_session_handler set_session_handler accept
unheld = refl

unheld_first : lookup 16 first.objects ≡ none
unfolding lookup
unheld_first = refl

two_reached : Reach willing everywhere [] two
two_reached =
    next (next (here first_made) (accepts 16 localhost unheld_first (omega arith)))
      (accepts 32 localhost unheld (omega arith))

Reach-IsServed_example : IsServed two
Reach-IsServed_example = Reach-IsServed willing everywhere [] two two_reached

sends_refine_example :
    (view (broadcast everywhere greeting two)
      ≡ send_where everywhere greeting (view two).listed (view two))
    × (view (send_to everywhere (id_of 32) greeting two)
        ≡ send_where everywhere greeting (λ b. (view two).listed 32 && 32 == b) (view two))
sends_refine_example = sends_refine everywhere greeting willing [] two 32 two_reached (omega arith)

-- A libuv that cannot listen.
abbrev busy : Uv
busy = record willing { listen = λ _. error 98 }

abbrev open_server : Server ℕ
open_server = record first { is_listening = true }

listens_and_stops_example :
    let t = listen busy [] 80 open_server in
    let r = stop_listening open_server in
    ((t.is_listening ≡ (
        open_server.is_listening
        || (succeeds (busy.tcp_bind open_server.history)
            && succeeds (busy.listen (Event.bind [] 80 ∷ open_server.history)))))
      × (t ≡ (if open_server.is_listening then open_server else t))
      × (closes t.history ≡ closes open_server.history))
    × ((r.is_listening ≡ false)
        × (closes r.history
            ≡ closes open_server.history
              + (if open_server.is_listening && not open_server.socket_closing then 1 else 0))
        × (stop_listening r ≡ r))
    × ((listen busy [] 80 r).socket_closing
        ≡ (open_server.is_listening || open_server.socket_closing))
listens_and_stops_example = listens_and_stops busy [] 80 open_server
