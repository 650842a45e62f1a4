-- ===== src/Server/Dispatch.antt =====
-- Where packets go in every reachable state of src/server.cpp, however old the session is.
use libuv_net.Base.{
  ℕ, ◌≡◌, refl, Bool, List, [], ◌∷◌, Option, none, some, ◌==◌, if◌then◌else◌, arith,
}
use libuv_net.Base.Outcome.{returns, ◌>>=◌, Holds}
use libuv_net.Base.Map.{lookup, insert}
use libuv_net.Packet.{Packet}
use libuv_net.Packet.PacketType
use libuv_net.Uv.{Uv, Event, Peer, inet, inet6}
use libuv_net.Session.Defs.{
  Call, calls_send, calls_stop, calls_close, calls_server, calls_other, PacketHandler, Conn,
  Session, emit, accept, send, run_calls, run_call, start as start_session,
  set_packet_handler as set_session_handler,
  set_default_packet_handler as set_default_session_handler,
  set_close_handler as set_session_close_handler,
}
use libuv_net.Session.Receive.{handle_packet}
use libuv_net.Session.Lifecycle.{Input, step}
use libuv_net.Session.Steps.{step-keeps}
use libuv_net.Session.Delivery.{tables}
use libuv_net.Session.Keeps.{run_calls-keeps}
use libuv_net.Server.Calls.{SessionHandler, hand_on, end_of, hook_name, no_reaction, calls_of_all}
use libuv_net.Server.Defs.{Server, hook, server_handler, see_off, notify_session, welcome}
use libuv_net.Server.Lifecycle.{Reach, refreshed, prepare}
use libuv_net.Server.Held.{Reach-Held}
use libuv_net.Server.Delivery.{welcomed, handle_packet-of_welcomed}

abbrev named : Option PacketHandler → Option ℕ
named o = elim o [ some h ↦ some h.name | none ↦ none ]

-- What no one changes: one handler, for heartbeats, the closures of the server for all other
-- packets and for the end, no interceptor and no read handler.
pub record IsHooked {V : Type 0} (c : Conn V) : Type 0 where
  pub handlers : c.packet_handlers ≡ (PacketType.heartbeat, no_reaction) ∷ []
  pub plain : c.interceptors ≡ []
  pub asks : named c.default_packet_handler ≡ some hook_name
  pub closer : c.close_handler ≡ some hook_name
  pub unread : c.read_handler ≡ none

refreshed-of_named :
    {V : Type 0} (a : ℕ) (s : Server V) (o : Option PacketHandler)
    → named o ≡ some hook_name
    → refreshed a s o ≡ some (hook a s)
refreshed-of_named a s none e = absurd (cc e)
refreshed-of_named a s (some h) e = ground (arith, e)

module _ {V : Type 0} (at : ℕ → Uv) where
  abbrev pub Hooked : Conn V → Type 0
  Hooked c = IsHooked c

  emit-Hooked : (e : Event) (c : Conn V) → Hooked c → Hooked (emit e c)
  emit-Hooked e c h = record {
    handlers = h.handlers;
    plain = h.plain;
    asks = h.asks;
    closer = h.closer;
    unread = h.unread;
  }

  sets-Hooked :
      (n : ℕ) (b : Bool) (c : Conn V)
      → Hooked c
      → Hooked (record c { last_heartbeat = n; timer_active = b })
  sets-Hooked n b c h = record {
    handlers = h.handlers;
    plain = h.plain;
    asks = h.asks;
    closer = h.closer;
    unread = h.unread;
  }

  run_call-Hooked : (a : ℕ) (x : Call) (c : Conn V) → Hooked c → Hooked (run_call (at a) x c)
  unfolding run_call
  run_call-Hooked a (calls_send p) c h = ground arith
  run_call-Hooked a calls_stop c h = ground arith
  run_call-Hooked a calls_close c h = ground arith
  run_call-Hooked a (calls_server k p) c h = ground arith
  run_call-Hooked a (calls_other k p) c h = ground arith

  pub send-Hooked : (a : ℕ) (p : Packet) (c : Conn V) → Hooked c → Hooked (send (at a) p c)
  unfolding run_call
  send-Hooked a p c h = run_call-Hooked a (calls_send p) c h

  notify_session-Hooked :
      (a : ℕ) (ids : List ℕ) (o : Option SessionHandler) (event : ℕ → Event) (c : Conn V)
      → Hooked c
      → Hooked (notify_session at a ids o event c)
  unfolding notify_session
  notify_session-Hooked a ids none event c h = h
  notify_session-Hooked a ids (some x) event c h =
      run_calls-keeps (at a) Hooked (λ e c plain. emit-Hooked e c) sets-Hooked (run_call-Hooked a)
        (calls_of_all a ids x.react) (emit (event x.name) c) (emit-Hooked (event x.name) c h)

  pub see_off-Hooked : (a : ℕ) (s : Server V) (c : Conn V) → Hooked c → Hooked (see_off at a s c)
  see_off-Hooked a s c h =
      notify_session-Hooked a s.sessions s.close_handler _ (record c { outbox = [] })
        (record {
          handlers = h.handlers;
          plain = h.plain;
          asks = h.asks;
          closer = h.closer;
          unread = h.unread;
        })

  pub prepare-Hooked : (a : ℕ) (s : Server V) (c : Conn V) → Hooked c → Hooked (prepare a s c)
  prepare-Hooked a s c h = record {
    handlers = h.handlers;
    plain = h.plain;
    asks = rw (refreshed-of_named a s c.default_packet_handler h.asks) refl;
    closer = h.closer;
    unread = h.unread;
  }

  pub welcome-Hooked :
      (a : ℕ) (peer : Peer) (s : Server V) → Hooked (welcome at a s (accept V a peer []).conn)
  unfolding welcome accept start_session set_session_handler set_default_session_handler
      set_session_close_handler insert
  welcome-Hooked a (inet address port) s =
      notify_session-Hooked a s.sessions s.connect_handler Event.call_server_connect _
        (record { handlers = refl; plain = refl; asks = refl; closer = refl; unread = refl })
  welcome-Hooked a (inet6 address port) s =
      notify_session-Hooked a s.sessions s.connect_handler Event.call_server_connect _
        (record { handlers = refl; plain = refl; asks = refl; closer = refl; unread = refl })

  pub step-Hooked :
      (a : ℕ) (t : Session V) (i : Input V)
      → Hooked t.conn
      → Holds (λ u. Hooked u.conn) (step (at a) t i)
  step-Hooked a =
      step-keeps (at a) Hooked (λ e c plain. emit-Hooked e c) sets-Hooked (run_call-Hooked a)

  pub tables-prepare :
      (a : ℕ) (s : Server V) (c : Conn V) → Hooked c → tables (prepare a s c) ≡ welcomed at a s
  tables-prepare a s c h =
      cc (h.handlers, h.plain, refreshed-of_named a s c.default_packet_handler h.asks)

  -- Every session that stands in memory has the closures of the server.
  pub Reach-Hooked :
      (uv : Uv) (history : List Event) (s : Server V)
      → Reach uv at history s
      → (a : ℕ) (t : Session V) → lookup a s.objects ≡ some t
      → Hooked t.conn
  Reach-Hooked uv history s r a t found =
      let held =
        Reach-Held at Hooked send-Hooked see_off-Hooked step-Hooked prepare-Hooked uv welcome-Hooked
          history s r a in
      rw found at held

  pub Reach-delivers :
      (uv : Uv) (history : List Event) (s : Server V)
      → Reach uv at history s
      → (a : ℕ) (t : Session V) (p : Packet) → lookup a s.objects ≡ some t
      → let c = prepare a s t.conn in
        handle_packet (at a) p c ≡ (
          if p.type == PacketType.heartbeat
          then returns
              (emit Event.clock_read (record c { last_heartbeat = (at a).clock c.history }))
          else end_of (server_handler s p) p >>= λ _. returns (
              run_calls
                (at a)
                (hand_on a s.sessions (server_handler s p) p)
                (emit (Event.call_packet hook_name p) c)))
  Reach-delivers uv history s r a t p found =
      let h = Reach-Hooked uv history s r a t found in
      handle_packet-of_welcomed at a s (at a) p (prepare a s t.conn) (tables-prepare a s t.conn h)
