-- ===== src/Exchange/Tests.antt =====
-- One text from a client to a session, and one back.
use libuv_net.Base.{ℕ, ◌≡◌, refl, true, false, none, List, [], ◌∷◌, take, drop}
use libuv_net.Base.Outcome.{returns, ◌>>=◌, foldm}
use libuv_net.Packet.{serialize, header_bytes}
use libuv_net.Packet.Words.{word_bytes}
use libuv_net.Framing.Chunks.{join, feed}
use libuv_net.Uv.{inet, writes}
use libuv_net.Samples.{little_endian, little_endian-IsByteAbi, willing, greeting, greeting-IsWire}
use libuv_net.Session.Defs.{Conn, accept, send as session_send}
use libuv_net.Session.Receive.{append_to_buffer as session_append}
use libuv_net.Session.Refinement.{session, handle as session_handle}
use libuv_net.Client.Defs.{Link, send as client_send}
use libuv_net.Client.Receive.{append_to_buffer as client_append}
use libuv_net.Client.Refinement.{client, handle as client_handle}
use libuv_net.Exchange.{wire, send_each, both_ways}

abbrev pub up : Link ℕ
up = record {
  is_connected = true;
  is_connecting = false;
  socket_closing = false;
  timer_active = false;
  last_heartbeat = 0;
  joinable = true;
  should_stop = false;
  connect_handler = none;
  disconnect_handler = none;
  packet_handlers = [];
  default_packet_handler = none;
  interceptors = [];
  history = [];
}

abbrev fresh : Conn ℕ
fresh = (accept ℕ 1 (inet [] 80) []).conn

abbrev bytes : List ℕ
bytes = serialize little_endian greeting

to_session :
    join (take 13 bytes ∷ drop 13 bytes ∷ [])
    ≡ wire (writes (send_each (client_send willing) (greeting ∷ []) up).history)
unfolding client_send serialize header_bytes word_bytes
to_session = refl

to_client :
    join (take 1 bytes ∷ drop 1 bytes ∷ [])
    ≡ wire (writes (send_each (session_send willing) (greeting ∷ []) fresh).history)
unfolding session_send accept serialize header_bytes word_bytes
to_client = refl

open_ : fresh.is_closing ≡ false
unfolding accept
open_ = refl

unwritten : writes fresh.history ≡ []
unfolding accept
unwritten = refl

both_ways_example :
    (feed (session_append willing) (session fresh []) (take 13 bytes ∷ drop 13 bytes ∷ [])
      ≡ (foldm (session_handle willing) fresh (greeting ∷ []) >>= λ d. returns (session d [])))
    × (feed (client_append willing) (client up []) (take 1 bytes ∷ drop 1 bytes ∷ [])
        ≡ (foldm (client_handle willing) up (greeting ∷ []) >>= λ d. returns (client d [])))
both_ways_example =
    both_ways willing willing (greeting ∷ []) (greeting ∷ []) (take 13 bytes ∷ drop 13 bytes ∷ [])
      (take 1 bytes ∷ drop 1 bytes ∷ []) up fresh refl little_endian-IsByteAbi (greeting-IsWire, tt)
      (greeting-IsWire, tt) refl refl open_ unwritten to_session to_client
