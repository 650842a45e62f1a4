-- ===== src/Server/RelayTests.antt =====
-- A server that hands every text on to all its sessions.
use libuv_net.Base.{
  ap, sym, ◌∙◌, Bool-cases, inl, inr, ℕ, ◌≡◌, refl, true, false, [], ◌∷◌, none, some, ◌==◌,
  if◌then◌else◌, arith,
}
use libuv_net.Base.Outcome.{returns}
use libuv_net.Base.Map.{lookup, insert}
use libuv_net.Packet.{Packet, serialize}
use libuv_net.Packet.PacketType
use libuv_net.Uv.{Uv, inet, done, received, Peer, Event, closes}
use libuv_net.Samples.{little_endian, little_endian-IsByteAbi, willing, greeting, greeting-IsWire}
use libuv_net.Session.Defs.{
  Conn, Session, emit, on_conn, accept, send, start as start_session,
  set_packet_handler as set_session_handler,
  set_default_packet_handler as set_default_session_handler,
  set_close_handler as set_session_close_handler,
}
use libuv_net.Server.Calls.{ServerHandler, calls_broadcast, hook_name}
use libuv_net.Server.Defs.{
  Server, new, set_packet_handler, on_object, server_handler, on_connection, welcome,
}
use libuv_net.Session.Refinement.{session}
use libuv_net.Session.Lifecycle.{Input, read, closed}
use libuv_net.Server.Lifecycle.{
  Reach, on_session, here, next, accepts, sets_packet_handler, prepare,
}
use libuv_net.Server.Objects.{mem}
use libuv_net.Server.Sockets.{Reach-closes}
use libuv_net.Server.Closing.{on_session-closed}
use libuv_net.Server.Relay.{read_broadcasts}
use libuv_net.Session.Total.{IsGood}
use libuv_net.Server.Held.{IsGoodReach}
use libuv_net.Server.Total.{HandlersReturn, on_session_returns}

abbrev pub everywhere : ℕ → Uv
everywhere a = willing

abbrev localhost : Peer
localhost = inet [] 80

-- A shorter text is what goes out.
abbrev pub answer : Packet
answer = record greeting { payload = 104 ∷ [] }

abbrev pub shout : ServerHandler
shout = record { name = 5; react = λ p. calls_broadcast answer ∷ []; ends = λ packet. returns tt }

abbrev first : Server ℕ
first = record {
  joinable = false;
  should_stop = false;
  is_listening = false;
  socket_closing = false;
  sessions = [];
  objects = [];
  connect_handler = none;
  close_handler = none;
  packet_handlers = [];
  default_packet_handler = none;
  history = Event.tcp_init ∷ [];
}

first_made : new ℕ true [] ≡ returns first
unfolding new
first_made = refl

abbrev ready : Server ℕ
ready = set_packet_handler PacketType.text shout first

abbrev one : Server ℕ
one = on_connection everywhere done 16 localhost ready

abbrev pub two : Server ℕ
two = on_connection everywhere done 32 localhost one

unheld_first : lookup 16 ready.objects ≡ none
unfolding lookup set_packet_handler
unheld_first = refl

unheld : lookup 32 one.objects ≡ none
unfolding on_connection lookup insert start_session set_session_close_handler
    set_default_session_handler set_session_handler accept set_packet_handler
unheld = refl

pub two_reached : Reach willing everywhere [] two
two_reached =
    next
      (next (next (here first_made) (sets_packet_handler PacketType.text shout))
        (accepts 16 localhost unheld_first (omega arith)))
      (accepts 32 localhost unheld (omega arith))

-- The older session
abbrev pub older : Session ℕ
older =
    on_conn (welcome everywhere 16 (record ready { sessions = 16 ∷ [] })) (accept ℕ 16 localhost [])

stands : lookup 16 two.objects ≡ some older
unfolding on_connection lookup insert start_session set_session_close_handler
    set_default_session_handler set_session_handler accept set_packet_handler
stands = refl

-- The newer session
abbrev pub newer : Session ℕ
newer =
    on_conn (welcome everywhere 32 (record one { sessions = 16 ∷ 32 ∷ [] }))
      (accept ℕ 32 localhost [])

pub stands_newer : lookup 32 two.objects ≡ some newer
unfolding on_connection lookup insert start_session set_session_close_handler
    set_default_session_handler set_session_handler accept set_packet_handler
stands_newer = refl

Reach-closes_example :
    (older.socket_closing ≡ older.is_closing)
    × (closes older.history ≡ (if older.is_closing then 1 else 0))
Reach-closes_example = Reach-closes everywhere willing [] two two_reached 16 older stands

abbrev coming : Conn ℕ
coming = prepare 16 two older.conn

pub chosen : server_handler two greeting ≡ some shout
unfolding on_connection start_session set_session_close_handler set_default_session_handler
    set_session_handler accept set_packet_handler lookup insert
chosen = refl

pub empty_buffer : lookup 16 two.objects ≡ some (session older.conn [])
unfolding on_connection lookup insert start_session set_session_close_handler
    set_default_session_handler set_session_handler accept set_packet_handler
empty_buffer = refl

pub unread : older.conn.read_handler ≡ none
unfolding start_session set_session_close_handler set_default_session_handler set_session_handler
    accept set_packet_handler welcome
unread = refl

read_broadcasts_example :
    let c =
      emit
        (Event.call_server_packet 5 greeting)
        (emit (Event.call_packet hook_name greeting) coming) in
    (r : Server ℕ) × (d : Conn ℕ) × (on_session everywhere 16
        (read (received (serialize little_endian greeting)))
        two
      ≡ returns r)
    × (d
        ≡ emit Event.delete_buffer
            (record (if mem 16 two.sessions then send willing answer c else c) {
              outbox = d.outbox;
            }))
    × ((b : ℕ)
        → lookup b r.objects ≡ (
            if 16 == b
            then some (session d [])
            else if mem b two.sessions
            then on_object (send willing answer) (lookup b two.objects)
            else lookup b two.objects))
read_broadcasts_example =
    read_broadcasts everywhere answer willing [] two 16 older.conn greeting shout two_reached
      empty_buffer unread little_endian-IsByteAbi greeting-IsWire refl chosen refl refl

-- Three bytes, less than a header, come in on the older session.
abbrev bit_by_bit : Input ℕ
bit_by_bit = read (received (1 ∷ 2 ∷ 3 ∷ []))

two-IsGoodReach : IsGoodReach willing everywhere (IsGood {V = ℕ}) two_reached
unfolding two_reached
two-IsGoodReach = (((tt, tt), tt), tt)

broadcasts_only :
    (p : Packet) → server_handler two p ≡ (if PacketType.text == p.type then some shout else none)
unfolding on_connection start_session set_session_close_handler set_default_session_handler
    set_session_handler accept set_packet_handler lookup insert
broadcasts_only p = ground arith

quiet : HandlersReturn everywhere two
quiet p h found =
    let listed = sym (broadcasts_only p) ∙ found in
    elim (Bool-cases (PacketType.text == p.type)) [
      | inl e ↦
          let same : shout ≡ h = cc (rw e at listed) in
          ap (λ (j : ServerHandler). j.ends p) (sym same)
      | inr e ↦ absurd (cc (rw e at listed))
    ]

on_session_returns_example : (t : Server ℕ) × (on_session everywhere 16 bit_by_bit two ≡ returns t)
on_session_returns_example =
    on_session_returns everywhere willing [] two two_reached 16 bit_by_bit quiet two-IsGoodReach
      (ground arith)

on_session-closed_example :
    (t : Server ℕ) × (on_session everywhere 16 closed two ≡ returns t)
    × ((b : ℕ) → mem b t.sessions ≡ (if 16 == b then false else mem b two.sessions))
on_session-closed_example = on_session-closed everywhere willing [] two 16 older two_reached stands
