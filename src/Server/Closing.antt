-- ===== src/Server/Closing.antt =====
-- What the end of a session does to the server: `on_close` of src/session.cpp with the closure that
-- src/server.cpp installs.
use libuv_net.Base.{
  ℕ, ◌≡◌, refl, ap, ◌∙◌, false, List, [], ◌∷◌, Option, none, some, ◌==◌, if◌then◌else◌,
}
use libuv_net.Base.Outcome.{returns}
use libuv_net.Base.Map.{lookup, insert}
use libuv_net.Packet.{Packet}
use libuv_net.Uv.{Uv, Event}
use libuv_net.Session.Defs.{Session, on_conn, on_close, send}
use libuv_net.Session.Lifecycle.{closed, step}
use libuv_net.Server.Id.{remove}
use libuv_net.Server.Defs.{
  Server, with_conn, deliver, settle, see_off, notify_closed, on_session_closed,
}
use libuv_net.Server.Lifecycle.{Reach, prepare, on_session, on_present, ended}
use libuv_net.Server.Dispatch.{Reach-Hooked}
use libuv_net.Server.Objects.{mem, mem-remove, with_conn-rest}

module _ {V : Type 0} (at : ℕ → Uv) where
  deliver-sessions :
      (out : List (ℕ × Packet)) (s : Server V) → (deliver at out s).sessions ≡ s.sessions
  unfolding deliver
  deliver-sessions [] s = refl
  deliver-sessions ((b, p) ∷ rest) s =
      deliver-sessions rest (with_conn b (send (at b) p) s)
      ∙ ap (λ (t : Server V). t.sessions) (with_conn-rest (send (at b) p) s b)

  pub settle-sessions :
      (a : ℕ) (u : Session V) (s : Server V) → (settle at a u s).sessions ≡ s.sessions
  unfolding settle
  settle-sessions a u s = deliver-sessions u.outbox (record s { objects = insert a u s.objects })

  notify_closed-sessions :
      (a : ℕ) (s : Server V) (o : Option (Session V))
      → (notify_closed at a o s).sessions ≡ s.sessions
  unfolding notify_closed
  notify_closed-sessions a s none = refl
  notify_closed-sessions a s (some u) = settle-sessions a (on_conn (see_off at a s) u) s

  sessions-on_session_closed :
      (a : ℕ) (s : Server V) → (on_session_closed at a s).sessions ≡ remove a s.sessions
  unfolding on_session_closed
  sessions-on_session_closed a s =
      notify_closed-sessions a (record s { sessions = remove a s.sessions }) (lookup a s.objects)

  -- In a reachable state, when libuv has closed the socket of a session, the close callback returns and
  -- the session is off the server's list; every other session is on it exactly if it was before.
  pub on_session-closed :
      (uv : Uv) (history : List Event) (s : Server V) (a : ℕ) (u : Session V)
      → Reach uv at history s
      → lookup a s.objects ≡ some u
      → (t : Server V) × (on_session at a closed s ≡ returns t)
        × ((b : ℕ) → mem b t.sessions ≡ (if a == b then false else mem b s.sessions))
  unfolding on_session on_present ended step on_close
  on_session-closed uv history s a u reached found =
      let v = on_conn on_close (on_conn (prepare a s) u) in
      let s' = settle at a v s in
      let h = Reach-Hooked at uv history s reached a u found in
      (
        on_session_closed at a s',
        rw found (rw h.closer refl),
        λ b.
            rw (sessions-on_session_closed a s' ∙ ap (remove a) (settle-sessions a v s))
              (mem-remove a b s.sessions),
      )
