-- ===== src/Server/Sockets.antt =====
-- The sockets of all sessions of src/server.cpp, in every reachable state.
use libuv_net.Base.{ℕ, ◌≡◌, refl, Bool, true, List, [], Option, none, some, if◌then◌else◌, arith}
use libuv_net.Base.Map.{lookup}
use libuv_net.Packet.{Packet}
use libuv_net.Uv.{Uv, Event, Peer, closes, is_plain, is_inert, is_plain_lem, is_plain-is_inert}
use libuv_net.Session.Defs.{
  calls_send, Conn, Session, emit, accept, send, set_default_packet_handler, set_packet_handler,
  set_close_handler, run_call,
}
use libuv_net.Session.Keeps.{run_calls-keeps, started-keeps}
use libuv_net.Session.Steps.{step-keeps}
use libuv_net.Session.Closing.{IsConsistent, run_call-IsConsistent, accept-IsConsistent}
use libuv_net.Server.Calls.{SessionHandler, calls_of_all}
use libuv_net.Server.Defs.{Server, see_off, notify_session, welcome}
use libuv_net.Server.Lifecycle.{Reach, prepare}
use libuv_net.Server.Held.{Reach-Held}

module _ {V : Type 0} (at : ℕ → Uv) where
  abbrev Tidy : Conn V → Type 0
  Tidy = IsConsistent 0

  emit-Tidy : (e : Event) (c : Conn V) → is_plain e ≡ true → Tidy c → Tidy (emit e c)
  emit-Tidy e c plain h = record {
    agree = h.agree;
    once = ground (arith, is_plain_lem e c.history plain);
  }

  inert_emit-Tidy : (e : Event) (c : Conn V) → is_inert e ≡ true → Tidy c → Tidy (emit e c)
  inert_emit-Tidy e c inert h = emit-Tidy e c (is_plain-is_inert e inert) h

  sets-Tidy :
      (n : ℕ) (b : Bool) (c : Conn V)
      → Tidy c
      → Tidy (record c { last_heartbeat = n; timer_active = b })
  sets-Tidy n b c h = record { agree = h.agree; once = h.once }

  notify_session-Tidy :
      (a : ℕ) (ids : List ℕ) (o : Option SessionHandler) (event : ℕ → Event) (c : Conn V)
      → ((n : ℕ) → is_inert (event n) ≡ true)
      → Tidy c
      → Tidy (notify_session at a ids o event c)
  unfolding notify_session
  notify_session-Tidy a ids none event c inert h = h
  notify_session-Tidy a ids (some x) event c inert h =
      run_calls-keeps (at a) Tidy inert_emit-Tidy sets-Tidy (run_call-IsConsistent (at a) 0)
        (calls_of_all a ids x.react) _ (inert_emit-Tidy (event x.name) c (inert x.name) h)

  welcome-Tidy :
      (a : ℕ) (peer : Peer) (s : Server V) → Tidy (welcome at a s (accept V a peer []).conn)
  unfolding welcome set_packet_handler set_default_packet_handler set_close_handler
  welcome-Tidy a peer s =
      let h = accept-IsConsistent {V = V} (at a) a peer [] in
      notify_session-Tidy a s.sessions s.connect_handler Event.call_server_connect _ (λ n. refl)
        (started-keeps (at a) Tidy inert_emit-Tidy sets-Tidy (run_call-IsConsistent (at a) 0) _
          (record { agree = h.agree; once = h.once }))

  send-Tidy : (a : ℕ) (p : Packet) (c : Conn V) → Tidy c → Tidy (send (at a) p c)
  unfolding run_call
  send-Tidy a p c h = run_call-IsConsistent (at a) 0 (calls_send p) c h

  see_off-Tidy : (a : ℕ) (s : Server V) (c : Conn V) → Tidy c → Tidy (see_off at a s c)
  see_off-Tidy a s c h =
      notify_session-Tidy a s.sessions s.close_handler Event.call_server_close
        (record c { outbox = [] }) (λ n. refl) (record { agree = h.agree; once = h.once })

  prepare-Tidy : (a : ℕ) (s : Server V) (c : Conn V) → Tidy c → Tidy (prepare a s c)
  unfolding set_default_packet_handler
  prepare-Tidy a s c h = record { agree = h.agree; once = h.once }

  -- In every reachable state of the server, uv_close has been called once on the socket of each
  -- session that is closing, and never on that of one that is not, whether the session is still
  -- listed or not.
  pub Reach-closes :
      (uv : Uv) (history : List Event) (s : Server V)
      → Reach uv at history s
      → (a : ℕ) (t : Session V) → lookup a s.objects ≡ some t
      → (t.socket_closing ≡ t.is_closing) × (closes t.history ≡ (if t.is_closing then 1 else 0))
  Reach-closes uv history s r a t found =
      let held =
        Reach-Held at Tidy send-Tidy see_off-Tidy
          (λ b u i. step-keeps (at b) Tidy emit-Tidy sets-Tidy (run_call-IsConsistent (at b) 0) u i)
          prepare-Tidy uv welcome-Tidy history s r a in
      let h : Tidy t.conn = rw found at held in (h.agree, omega (arith, h.once))
