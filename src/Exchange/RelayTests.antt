-- ===== src/Exchange/RelayTests.antt =====
-- A text that one client sends, and the shorter one that the server hands to the other.
use libuv_net.Base.{ℕ, ◌≡◌, refl, false, true, List, [], ◌∷◌, some, take, drop, arith}
use libuv_net.Base.Outcome.{returns, ◌>>=◌, foldm}
use libuv_net.Base.Map.{lookup, insert}
use libuv_net.Packet.{serialize, header_bytes}
use libuv_net.Packet.Words.{word_bytes}
use libuv_net.Packet.RoundTrip.{IsWire}
use libuv_net.Framing.Chunks.{join, feed}
use libuv_net.Uv.{received, writes}
use libuv_net.Samples.{little_endian, little_endian-IsByteAbi, willing, greeting, greeting-IsWire}
use libuv_net.Session.Defs.{
  on_conn, accept, send as session_send, start as start_session,
  set_packet_handler as set_session_handler,
  set_default_packet_handler as set_default_session_handler,
  set_close_handler as set_session_close_handler,
}
use libuv_net.Session.Lifecycle.{read}
use libuv_net.Server.Defs.{Server, on_connection, set_packet_handler, welcome}
use libuv_net.Server.Lifecycle.{on_session}
use libuv_net.Server.Objects.{mem}
use libuv_net.Server.RelayTests.{
  everywhere, answer, shout, two, older, newer, two_reached, chosen, empty_buffer, unread,
  stands_newer,
}
use libuv_net.Client.Defs.{send as client_send}
use libuv_net.Client.Receive.{append_to_buffer as client_append}
use libuv_net.Client.Refinement.{client, handle as client_handle}
use libuv_net.Exchange.{wire}
use libuv_net.Exchange.Tests.{up}
use libuv_net.Exchange.Relay.{relay_lem}

abbrev image : List ℕ
image = serialize little_endian greeting

abbrev back : List ℕ
back = serialize little_endian answer

answer-IsWire : IsWire answer
answer-IsWire = record {
  type = omega arith;
  sequence = omega arith;
  bytes = ground arith;
  short = omega arith;
}

is_open : newer.conn.is_closing ≡ false
unfolding start_session set_session_close_handler set_default_session_handler set_session_handler
    accept set_packet_handler welcome on_connection
is_open = refl

unwritten : writes newer.conn.history ≡ []
unfolding start_session set_session_close_handler set_default_session_handler set_session_handler
    accept set_packet_handler welcome on_connection
unwritten = refl

written : writes (client_send willing greeting up).history ≡ image ∷ []
unfolding client_send
written = refl

listed : mem 32 two.sessions ≡ true
unfolding on_connection start_session set_session_close_handler set_default_session_handler
    set_session_handler accept set_packet_handler lookup insert
listed = refl

arrived :
    join (take 5 back ∷ drop 5 back ∷ [])
    ≡ wire (writes (session_send willing answer newer.conn).history)
unfolding session_send start_session set_session_close_handler set_default_session_handler
    set_session_handler accept set_packet_handler welcome on_connection serialize header_bytes
    word_bytes
arrived = refl

relay_lem_example :
    (r : Server ℕ) × (on_session everywhere 16 (read (received image)) two ≡ returns r)
    × (lookup 32 r.objects ≡ some (on_conn (session_send willing answer) newer))
    × (feed (client_append willing) (client up []) (take 5 back ∷ drop 5 back ∷ [])
        ≡ (foldm (client_handle willing) up (answer ∷ []) >>= λ d. returns (client d [])))
relay_lem_example =
    relay_lem everywhere willing willing willing [] two 16 32 older.conn newer up up greeting answer
      shout image (take 5 back ∷ drop 5 back ∷ []) two_reached empty_buffer stands_newer refl listed
      unread is_open unwritten chosen refl refl refl greeting-IsWire answer-IsWire
      little_endian-IsByteAbi little_endian-IsByteAbi refl refl refl written arrived
