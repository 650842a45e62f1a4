-- ===== src/Programs/DialogueTests.antt =====
-- Two lines that are typed, sent, answered and shown.
use libuv_net.Base.{
  ap, append-nil, ℕ, ◌≡◌, ◌≢◌, refl, false, true, List, [], ◌∷◌, none, some, All, arith,
}
use libuv_net.Base.Outcome.{returns, foldm}
use libuv_net.Base.Map.{lookup, insert}
use libuv_net.Packet.{Packet}
use libuv_net.Packet.PacketType
use libuv_net.Framing.Chunks.{join}
use libuv_net.Interceptor.Any.{Any}
use libuv_net.Uv.{Uv, Event, inet, done}
use libuv_net.Samples.{little_endian-IsByteAbi, willing}
use libuv_net.Session.Defs.{
  Session, on_conn, accept, run_calls, start as start_session,
  set_packet_handler as set_session_handler,
  set_default_packet_handler as set_default_session_handler,
  set_close_handler as set_session_close_handler,
}
use libuv_net.Session.Refinement.{session}
use libuv_net.Server.Defs.{
  Server, new as new_server, on_connection, server_handler, welcome,
  set_packet_handler as set_server_handler,
  set_default_packet_handler as set_default_server_handler,
  set_connect_handler as set_server_connect_handler, set_close_handler as set_server_close_handler,
}
use libuv_net.Server.Lifecycle.{
  Reach, here, next, accepts, sets_connect_handler, sets_close_handler, sets_packet_handler,
  sets_default_packet_handler,
}
use libuv_net.Client.Defs.{
  Link, set_connect_handler, set_disconnect_handler, set_packet_handler, set_default_packet_handler,
  add_client_interceptor,
}
use libuv_net.Client.Refinement.{client}
use libuv_net.Programs.Defs.{prepare, shown, packet_handler_of, on_text}
use libuv_net.Programs.Server.{text_handler, prepare_server, logs_session, logs_packet}
use libuv_net.Programs.Tests.{one_document, ready, awake, no_text}
use libuv_net.Programs.Entry.{app}
use libuv_net.Programs.Rounds.{Round, IsRound, round, shown_after}
use libuv_net.Programs.Dialogue.{IsReady, dialogue_lem}

abbrev everywhere : ℕ → Uv
everywhere a = willing

abbrev blank : Server (Any ℕ ℕ)
blank = record {
  joinable = false;
  should_stop = false;
  is_listening = false;
  socket_closing = false;
  sessions = [];
  objects = [];
  connect_handler = none;
  close_handler = none;
  packet_handlers = [];
  default_packet_handler = none;
  history = Event.tcp_init ∷ [];
}

-- The server of the program, with one session.
abbrev serving : Server (Any ℕ ℕ)
serving = on_connection everywhere done 16 (inet [] 80) (prepare_server blank)

blank_made : new_server (Any ℕ ℕ) true [] ≡ returns blank
unfolding new_server
blank_made = refl

unheld : lookup 16 (prepare_server blank).objects ≡ none
unfolding prepare_server lookup set_server_handler set_default_server_handler
    set_server_connect_handler set_server_close_handler
unheld = refl

serving_reached : Reach willing everywhere [] serving
unfolding prepare_server
serving_reached =
    next
      (next
        (next
          (next
            (next
              (next (next (here blank_made) (sets_connect_handler (logs_session 1)))
                (sets_close_handler (logs_session 2)))
              (sets_packet_handler PacketType.text text_handler))
            (sets_packet_handler PacketType.binary (logs_packet 4)))
          (sets_packet_handler PacketType.heartbeat (logs_packet 5)))
        (sets_default_packet_handler (logs_packet 6)))
      (accepts 16 (inet [] 80) unheld (omega arith))

abbrev there : Session (Any ℕ ℕ)
there =
    on_conn (welcome everywhere 16 (record (prepare_server blank) { sessions = 16 ∷ [] }))
      (accept (Any ℕ ℕ) 16 (inet [] 80) [])

found : lookup 16 serving.objects ≡ some (session there.conn [])
unfolding on_connection lookup insert start_session set_session_close_handler
    set_default_session_handler set_session_handler accept prepare_server set_server_handler
    set_default_server_handler set_server_connect_handler set_server_close_handler run_calls
found = refl

unread : there.conn.read_handler ≡ none
unfolding on_connection lookup insert start_session set_session_close_handler
    set_default_session_handler set_session_handler accept prepare_server set_server_handler
    set_default_server_handler set_server_connect_handler set_server_close_handler run_calls welcome
unread = refl

is_open : there.conn.is_closing ≡ false
unfolding on_connection lookup insert start_session set_session_close_handler
    set_default_session_handler set_session_handler accept prepare_server set_server_handler
    set_default_server_handler set_server_connect_handler set_server_close_handler run_calls welcome
is_open = refl

answers_text :
    (p : Packet) → p.type ≡ PacketType.text → server_handler serving p ≡ some text_handler
unfolding on_connection lookup insert start_session set_session_close_handler
    set_default_session_handler set_session_handler accept prepare_server set_server_handler
    set_default_server_handler set_server_connect_handler set_server_close_handler run_calls welcome
answers_text p kind = rw kind refl

logs_text : lookup PacketType.text ready.packet_handlers ≡ some (packet_handler_of on_text)
unfolding prepare set_connect_handler set_disconnect_handler set_packet_handler
    set_default_packet_handler add_client_interceptor lookup insert
logs_text = refl

up : ready.is_connected ≡ true
unfolding prepare set_connect_handler set_disconnect_handler set_packet_handler
    set_default_packet_handler add_client_interceptor
up = refl

both_ready : IsReady willing willing one_document (λ j. []) everywhere 16 [] serving ready
both_ready = record {
  up = up;
  awake = rw awake refl;
  shows = logs_text;
  plain = no_text;
  reached = serving_reached;
  answers = answers_text;
  conn = there.conn;
  found = found;
  unread = unread;
  is_open = is_open;
}

-- A network that carries one byte at a time, and one that carries all at once.
abbrev byte_by_byte : List ℕ → List (List ℕ)
byte_by_byte [] = []
byte_by_byte (b ∷ bytes) = (b ∷ []) ∷ byte_by_byte bytes

abbrev at_once : List ℕ → List (List ℕ)
at_once [] = []
at_once (b ∷ bytes) = (b ∷ bytes) ∷ []

join-byte_by_byte : (bytes : List ℕ) → join (byte_by_byte bytes) ≡ bytes
join-byte_by_byte [] = refl
join-byte_by_byte (b ∷ bytes) = ap (◌∷◌ b) (join-byte_by_byte bytes)

join-at_once : (bytes : List ℕ) → join (at_once bytes) ≡ bytes
join-at_once [] = refl
join-at_once (b ∷ bytes) = append-nil (b ∷ bytes)

All-byte_by_byte : (bytes : List ℕ) → All (λ chunk. chunk ≢ []) (byte_by_byte bytes)
All-byte_by_byte [] = tt
All-byte_by_byte (b ∷ bytes) = (λ e. cc e, All-byte_by_byte bytes)

All-at_once : (bytes : List ℕ) → All (λ chunk. chunk ≢ []) (at_once bytes)
All-at_once [] = tt
All-at_once (b ∷ bytes) = (λ e. cc e, tt)

-- "hi" and "h"
abbrev greets : Round
greets = record { first = 104; rest = 105 ∷ []; cut = byte_by_byte }

abbrev shortens : Round
shortens = record { first = 104; rest = []; cut = at_once }

greets-IsRound : IsRound greets
greets-IsRound = record {
  asked = record {
    type = omega arith;
    sequence = omega arith;
    bytes = ground arith;
    short = omega arith;
  };
  answered = record {
    type = omega arith;
    sequence = omega arith;
    bytes = ground arith;
    short = omega arith;
  };
  joined = join-byte_by_byte;
  pieces = All-byte_by_byte;
}

shortens-IsRound : IsRound shortens
shortens-IsRound = record {
  asked = record {
    type = omega arith;
    sequence = omega arith;
    bytes = ground arith;
    short = omega arith;
  };
  answered = record {
    type = omega arith;
    sequence = omega arith;
    bytes = ground arith;
    short = omega arith;
  };
  joined = join-at_once;
  pieces = All-at_once;
}

dialogue_lem_example :
    (t : Server (Any ℕ ℕ)) × (k : Link (Any ℕ ℕ)) × (foldm
        (round willing one_document everywhere 16)
        (serving, app (client ready []))
        (greets ∷ shortens ∷ [])
      ≡ returns (t, app (client k [])))
    × IsReady willing willing one_document (λ j. []) everywhere 16 [] t k
    × (shown one_document (λ j. []) k.history
        ≡ shown_after (greets ∷ shortens ∷ []) (shown one_document (λ j. []) ready.history))
dialogue_lem_example =
    dialogue_lem willing willing one_document (λ j. []) everywhere 16 [] serving ready
      (greets ∷ shortens ∷ []) little_endian-IsByteAbi refl both_ready
      (greets-IsRound, (shortens-IsRound, tt))
