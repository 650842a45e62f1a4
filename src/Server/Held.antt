-- ===== src/Server/Held.antt =====
-- What every session that stands in the memory of src/server.cpp keeps, in all reachable states.
use libuv_net.Base.{
  ℕ, Bool, true, false, if◌then◌else◌, List, [], ◌∷◌, ◌++◌, Option, none, some, ◌==◌, Bool-cases,
  inl, inr,
}
use libuv_net.Base.Outcome.{Holds, Holds-bind, Holds-of_returns}
use libuv_net.Base.Map.{lookup, insert, lookup-insert}
use libuv_net.Packet.{Packet}
use libuv_net.Uv.{Uv, Event, Peer}
use libuv_net.Session.Defs.{Conn, Session, on_conn, accept, send}
use libuv_net.Session.Lifecycle.{Input, closed, step}
use libuv_net.Server.Id.{remove, find_session}
use libuv_net.Server.Defs.{
  set_connect_handler, set_close_handler, set_packet_handler, set_default_packet_handler, Server,
  new, see_off, notify_closed, settle, deliver, with_conn, on_object, send_all, send_found,
  broadcast, send_to, on_connection, on_session_closed, welcome,
}
use libuv_net.Server.Lifecycle.{
  sets_connect_handler, sets_close_handler, sets_packet_handler, sets_default_packet_handler,
  prepare, has_called, ended, on_present, on_session, Step, accepts, session, broadcasts, sends_to,
  listens, stops_listening, starts, stops, Reach, here, next,
}
use libuv_net.Server.Objects.{lookup-with_conn}
use libuv_net.Server.Served.{listen-rest, stop_listening-rest, start-rest, stop-rest}

-- The inputs of the sessions are of one sort.
module _ {V : Type 0} (uv : Uv) (at : ℕ → Uv) (Good : Input V → Type 0) where
  abbrev pub IsGoodStep : {s t : Server V} → Step uv at s t → Type 0
  IsGoodStep (session a i e) = Good i
  IsGoodStep _ = Unit {0}

  abbrev pub IsGoodReach : {history : List Event} {s : Server V} → Reach uv at history s → Type 0
  IsGoodReach (here e) = Unit {0}
  IsGoodReach (next r x) = IsGoodReach r × IsGoodStep x

module _ {V : Type 0} (at : ℕ → Uv) (P : Session V → Type 0) where
  -- Of the session at each address, if there is one.
  abbrev pub Present : Option (Session V) → Type 0
  Present none = Unit {0}
  Present (some t) = P t

  abbrev pub Held : Server V → Type 0
  Held s = (a : ℕ) → Present (lookup a s.objects)

  put-Held :
      (a : ℕ) (u : Session V) (s : Server V)
      → P u
      → Held s
      → (b : ℕ) → Present (lookup b (insert a u s.objects))
  put-Held a u s k h b =
      rw (lookup-insert a b u s.objects)
        (elim (Bool-cases (a == b)) [ inl e ↦ rw e k | inr e ↦ rw e (h b) ])

  on_object-Present :
      (f : Conn V → Conn V) (o : Option (Session V))
      → ((t : Session V) → P t → P (on_conn f t))
      → Present o
      → Present (on_object f o)
  on_object-Present f none keeps h = tt
  on_object-Present f (some t) keeps h = keeps t h

  with_conn-Held :
      (a : ℕ) (f : Conn V → Conn V) (s : Server V)
      → ((t : Session V) → P t → P (on_conn f t))
      → Held s
      → Held (with_conn a f s)
  with_conn-Held a f s keeps h b = rw (lookup-with_conn f s a b) (elim (Bool-cases (a == b)) [
    | inl e ↦ rw e (on_object-Present f (lookup b s.objects) keeps (h b))
    | inr e ↦ rw e (h b)
  ])

  module _
      (sends : (a : ℕ) (p : Packet) (t : Session V) → P t → P (on_conn (send (at a) p) t)) where
    deliver-Held : (out : List (ℕ × Packet)) (s : Server V) → Held s → Held (deliver at out s)
    unfolding deliver
    deliver-Held [] s h = h
    deliver-Held ((b, p) ∷ rest) s h =
        deliver-Held rest (with_conn b (send (at b) p) s) (with_conn-Held b _ s (sends b p) h)

    settle-Held : (a : ℕ) (u : Session V) (s : Server V) → P u → Held s → Held (settle at a u s)
    unfolding settle
    settle-Held a u s k h = deliver-Held u.outbox _ (put-Held a u s k h)

    send_all-Held : (p : Packet) (bs : List ℕ) (s : Server V) → Held s → Held (send_all at p bs s)
    unfolding send_all
    send_all-Held p [] s h = h
    send_all-Held p (b ∷ bs) s h =
        send_all-Held p bs (with_conn b (send (at b) p) s) (with_conn-Held b _ s (sends b p) h)

    send_found-Held :
        (o : Option ℕ) (p : Packet) (s : Server V) → Held s → Held (send_found at o p s)
    unfolding send_found
    send_found-Held none p s h = h
    send_found-Held (some a) p s h = with_conn-Held a _ s (sends a p) h

  module _ (Good : Input V → Type 0)
      (sends : (a : ℕ) (p : Packet) (t : Session V) → P t → P (on_conn (send (at a) p) t))
      (ends : (a : ℕ) (s : Server V) (t : Session V) → P t → P (on_conn (see_off at a s) t))
      (steps : (a : ℕ) (t : Session V) (i : Input V) → Good i → P t → Holds P (step (at a) t i))
      (prepares : (a : ℕ) (s : Server V) (t : Session V) → P t → P (on_conn (prepare a s) t)) where
    notify_closed-Held :
        (a : ℕ) (s : Server V) (o : Option (Session V))
        → Present o
        → Held s
        → Held (notify_closed at a o s)
    unfolding notify_closed
    notify_closed-Held a s none k h = h
    notify_closed-Held a s (some u) k h =
        settle-Held sends a (on_conn (see_off at a s) u) s (ends a s u k) h

    Held-if : (b : Bool) (s t : Server V) → Held s → Held t → Held (if b then s else t)
    Held-if true s t h k = h
    Held-if false s t h k = k

    ended-Held :
        (i : Input V) (a : ℕ) (u : Session V) (s : Server V) → Held s → Held (ended at i a u s)
    unfolding ended on_session_closed
    ended-Held closed a u s h =
        Held-if (has_called u.history) _ s
          (notify_closed-Held a (record s { sessions = remove a s.sessions }) (lookup a s.objects)
            (h a) h)
          h
    ended-Held _ a u s h = h

    on_present-Held :
        (a : ℕ) (i : Input V) (s : Server V) (o : Option (Session V))
        → Good i
        → Present o
        → Held s
        → Holds Held (on_present at a i s o)
    unfolding on_present
    on_present-Held a i s none good k h = h
    on_present-Held a i s (some t) good k h =
        Holds-bind P Held (step (at a) (on_conn (prepare a s) t) i) _
          (steps a (on_conn (prepare a s) t) i good (prepares a s t k))
          (λ u g. ended-Held i a u (settle at a u s) (settle-Held sends a u s g h))

    on_session-Held :
        (a : ℕ) (i : Input V) (s : Server V) → Good i → Held s → Holds Held (on_session at a i s)
    unfolding on_session
    on_session-Held a i s good h = on_present-Held a i s (lookup a s.objects) good (h a) h

    module _ (uv : Uv)
        (welcomes : (a : ℕ) (peer : Peer) (s : Server V)
          → P (on_conn (welcome at a s) (accept V a peer []))) where
      Step-Held : (s t : Server V) (x : Step uv at s t) → IsGoodStep uv at Good x → Held s → Held t
      unfolding broadcast send_to on_connection set_connect_handler set_close_handler
          set_packet_handler set_default_packet_handler
      Step-Held s t (accepts a peer fresh word) g h =
          let t = record s { sessions = s.sessions ++ a ∷ [] } in
          settle-Held sends a (on_conn (welcome at a t) (accept V a peer [])) t (welcomes a peer t)
            h
      Step-Held s t (session a i e) g h =
          Holds-of_returns Held (on_session at a i s) (on_session-Held a i s g h) e
      Step-Held s t (broadcasts p) g h = send_all-Held sends p s.sessions s h
      Step-Held s t (sends_to id p) g h = send_found-Held sends (find_session id s.sessions) p s h
      Step-Held s t (sets_connect_handler x) g h = h
      Step-Held s t (sets_close_handler x) g h = h
      Step-Held s t (sets_packet_handler type x) g h = h
      Step-Held s t (sets_default_packet_handler x) g h = h
      Step-Held s t (listens host port) g h = λ a. rw (listen-rest uv host port s).1 (h a)
      Step-Held s t stops_listening g h = λ a. rw (stop_listening-rest s).1 (h a)
      Step-Held s t starts g h = λ a. rw (start-rest s).1 (h a)
      Step-Held s t stops g h = λ a. rw (stop-rest s).1 (h a)

      pub IsGoodReach-Held :
          (history : List Event) (s : Server V) (r : Reach uv at history s)
          → IsGoodReach uv at Good r
          → Held s
      unfolding new lookup
      IsGoodReach-Held history s (here e) g = Holds-of_returns Held (new V true history) (λ a. tt) e
      IsGoodReach-Held history s (next {s = r} x y) g =
          Step-Held r s y g.1 (IsGoodReach-Held history r x g.0)

module _ {V : Type 0} (at : ℕ → Uv) (P : Conn V → Type 0)
    (sends : (a : ℕ) (p : Packet) (c : Conn V) → P c → P (send (at a) p c))
    (ends : (a : ℕ) (s : Server V) (c : Conn V) → P c → P (see_off at a s c))
    (steps : (a : ℕ) (t : Session V) (i : Input V)
      → P t.conn
      → Holds (λ u. P u.conn) (step (at a) t i))
    (prepares : (a : ℕ) (s : Server V) (c : Conn V) → P c → P (prepare a s c)) (uv : Uv)
    (welcomes : (a : ℕ) (peer : Peer) (s : Server V)
      → P (welcome at a s (accept V a peer []).conn)) where
  abbrev Any : Input V → Type 0
  Any i = Unit {0}

  any_step : {s t : Server V} (x : Step uv at s t) → IsGoodStep uv at Any x
  any_step (accepts a peer fresh word) = tt
  any_step (session a i e) = tt
  any_step (broadcasts p) = tt
  any_step (sends_to id p) = tt
  any_step (sets_connect_handler x) = tt
  any_step (sets_close_handler x) = tt
  any_step (sets_packet_handler type x) = tt
  any_step (sets_default_packet_handler x) = tt
  any_step (listens host port) = tt
  any_step stops_listening = tt
  any_step starts = tt
  any_step stops = tt

  any_run :
      {history : List Event} {s : Server V} (r : Reach uv at history s) → IsGoodReach uv at Any r
  any_run (here e) = tt
  any_run (next r x) = (any_run r, any_step x)

  pub Reach-Held :
      (history : List Event) (s : Server V) → Reach uv at history s → Held at (λ t. P t.conn) s
  Reach-Held history s r =
      IsGoodReach-Held at (λ t. P t.conn) Any (λ a p t. sends a p t.conn) (λ a s t. ends a s t.conn)
        (λ a t i g. steps a t i) (λ a s t. prepares a s t.conn) uv welcomes history s r (any_run r)
