-- ===== src/Server/Sessions.antt =====
-- The list of sessions in every state that src/server.cpp reaches.
use libuv_net.Base.{
  Bool, if◌then◌else◌, ℕ, ◌^◌, ◌<◌, ◌≡◌, refl, true, false, List, [], ◌∷◌, ◌++◌, Option, none, some,
}
use libuv_net.Base.Outcome.{Holds, Holds-bind, Holds-of_returns, any}
use libuv_net.Base.Map.{lookup}
use libuv_net.Packet.{Packet}
use libuv_net.Uv.{Event, Uv}
use libuv_net.Session.Defs.{Session, on_conn, accept, send}
use libuv_net.Session.Lifecycle.{Input, closed, step}
use libuv_net.Server.Id.{remove, find_session}
use libuv_net.Server.Defs.{
  set_connect_handler, set_close_handler, set_packet_handler, set_default_packet_handler, Server,
  new, welcome, see_off, notify_closed, settle, deliver, with_conn, send_all, send_found, broadcast,
  send_to, on_connection, on_session_closed,
}
use libuv_net.Server.Lifecycle.{
  sets_connect_handler, sets_close_handler, sets_packet_handler, sets_default_packet_handler,
  prepare, has_called, ended, on_present, on_session, Step, accepts, session, broadcasts, sends_to,
  listens, stops_listening, starts, stops, Reach, here, next,
}
use libuv_net.Server.Served.{
  IsServed, IsServed-objects, with_conn-IsServed, put-IsServed, put_new-IsServed, remove-IsServed,
  same_tables-IsServed, listen-rest, stop_listening-rest, start-rest, stop-rest,
}

module _ {V : Type 0} where
  module _ (at : ℕ → Uv) where
    send_all-IsServed :
        (p : Packet) (bs : List ℕ) (s : Server V) → IsServed s → IsServed (send_all at p bs s)
    unfolding send_all
    send_all-IsServed p [] s h = h
    send_all-IsServed p (b ∷ bs) s h =
        send_all-IsServed p bs (with_conn b (send (at b) p) s) (with_conn-IsServed b _ s h)

    send_found-IsServed :
        (o : Option ℕ) (p : Packet) (s : Server V) → IsServed s → IsServed (send_found at o p s)
    unfolding send_found
    send_found-IsServed none p s h = h
    send_found-IsServed (some a) p s h = with_conn-IsServed a _ s h

    deliver-IsServed :
        (out : List (ℕ × Packet)) (s : Server V) → IsServed s → IsServed (deliver at out s)
    unfolding deliver
    deliver-IsServed [] s h = h
    deliver-IsServed ((b, p) ∷ rest) s h =
        deliver-IsServed rest (with_conn b (send (at b) p) s) (with_conn-IsServed b _ s h)

    settle-IsServed :
        (a : ℕ) (u : Session V) (s : Server V) → IsServed s → IsServed (settle at a u s)
    unfolding settle
    settle-IsServed a u s h = deliver-IsServed u.outbox _ (put-IsServed a u s h)

    settle_new-IsServed :
        (a : ℕ) (u : Session V) (s : Server V)
        → lookup a s.objects ≡ none
        → a < 2 ^ 64
        → IsServed s
        → IsServed (settle at a u (record s { sessions = s.sessions ++ a ∷ [] }))
    unfolding settle
    settle_new-IsServed a u s fresh word h =
        deliver-IsServed u.outbox _ (put_new-IsServed a u s fresh word h)

    notify_closed-IsServed :
        (a : ℕ) (s : Server V) (o : Option (Session V))
        → IsServed s
        → IsServed (notify_closed at a o s)
    unfolding notify_closed
    notify_closed-IsServed a s none h = h
    notify_closed-IsServed a s (some u) h = settle-IsServed a (on_conn (see_off at a s) u) s h

    IsServed-if :
        (b : Bool) (s t : Server V) → IsServed s → IsServed t → IsServed (if b then s else t)
    IsServed-if true s t h k = h
    IsServed-if false s t h k = k

    ended-IsServed :
        (i : Input V) (a : ℕ) (u : Session V) (s : Server V)
        → IsServed s
        → IsServed (ended at i a u s)
    unfolding ended on_session_closed
    ended-IsServed closed a u s h =
        IsServed-if (has_called u.history) _ s
          (notify_closed-IsServed a (record s { sessions = remove a s.sessions })
            (lookup a s.objects) (remove-IsServed a s h))
          h
    ended-IsServed _ a u s h = h

    on_present-IsServed :
        (a : ℕ) (i : Input V) (s : Server V) (o : Option (Session V))
        → IsServed s
        → Holds IsServed (on_present at a i s o)
    unfolding on_present
    on_present-IsServed a i s none h = h
    on_present-IsServed a i s (some t) h =
        Holds-bind (λ _. Unit {0}) IsServed (step (at a) (on_conn (prepare a s) t) i) _ (any _)
          (λ u _. ended-IsServed i a u (settle at a u s) (settle-IsServed a u s h))

    on_session-IsServed :
        (a : ℕ) (i : Input V) (s : Server V) → IsServed s → Holds IsServed (on_session at a i s)
    unfolding on_session
    on_session-IsServed a i s h = on_present-IsServed a i s (lookup a s.objects) h

  module _ (uv : Uv) (at : ℕ → Uv) where
    Step-IsServed : (s t : Server V) → Step uv at s t → IsServed s → IsServed t
    unfolding broadcast send_to on_connection set_connect_handler set_close_handler
        set_packet_handler set_default_packet_handler
    Step-IsServed s t (accepts a peer fresh word) h =
        let t = record s { sessions = s.sessions ++ a ∷ [] } in
        settle_new-IsServed at a (on_conn (welcome at a t) (accept V a peer [])) s fresh word h
    Step-IsServed s t (session a i e) h =
        Holds-of_returns IsServed (on_session at a i s) (on_session-IsServed at a i s h) e
    Step-IsServed s t (broadcasts p) h = send_all-IsServed at p s.sessions s h
    Step-IsServed s t (sends_to id p) h = send_found-IsServed at (find_session id s.sessions) p s h
    Step-IsServed s t (listens host port) h =
        let m = listen-rest uv host port s in IsServed-objects s t m.0 (λ a k. rw m.1 k) h
    Step-IsServed s t stops_listening h =
        let m = stop_listening-rest s in IsServed-objects s t m.0 (λ a k. rw m.1 k) h
    Step-IsServed s t starts h =
        let m = start-rest s in IsServed-objects s t m.0 (λ a k. rw m.1 k) h
    Step-IsServed s t (sets_connect_handler x) h = same_tables-IsServed s t refl refl h
    Step-IsServed s t (sets_close_handler x) h = same_tables-IsServed s t refl refl h
    Step-IsServed s t (sets_packet_handler type x) h = same_tables-IsServed s t refl refl h
    Step-IsServed s t (sets_default_packet_handler x) h = same_tables-IsServed s t refl refl h
    Step-IsServed s t stops h = let m = stop-rest s in IsServed-objects s t m.0 (λ a k. rw m.1 k) h

    -- In every reachable state the list of sessions has no address twice, and each session on it
    -- stands in memory, at an address of 64 bits.
    pub Reach-IsServed : (history : List Event) (s : Server V) → Reach uv at history s → IsServed s
    unfolding new
    Reach-IsServed history s (here e) =
        Holds-of_returns IsServed (new V true history)
          (record { distinct = tt; held = λ a k. cc k; words = λ a k. cc k }) e
    Reach-IsServed history s (next {s = r} x y) = Step-IsServed r s y (Reach-IsServed history r x)
