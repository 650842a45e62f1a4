-- ===== src/Programs/Server.antt =====
-- tests/server_test.cpp: the handlers of the server, and `main`.
use libuv_net.Base.{ℕ, Bool, not, true, false, List, [], ◌∷◌, ◌++◌, if◌then◌else◌}
use libuv_net.Base.Outcome.{returns}
use libuv_net.Packet.{Packet, packet_of}
use libuv_net.Packet.PacketType
use libuv_net.Uv.{Uv}
use libuv_net.Session.Defs.{calls_send}
use libuv_net.Server.Id.{same_text}
use libuv_net.Server.Calls.{SessionHandler, ServerHandler, calls_session}
use libuv_net.Server.Defs.{
  Server, set_connect_handler, set_close_handler, set_packet_handler, set_default_packet_handler,
  start, stop, listen, stop_listening, destroy,
}
use libuv_net.Programs.Defs.{quit_word}

-- "服务器已收到消息: "
abbrev pub received_label : List ℕ
received_label =
    230 ∷ 156 ∷ 141 ∷ 229 ∷ 138 ∷ 161 ∷ 229 ∷ 153 ∷ 168 ∷ 229 ∷ 183 ∷ 178 ∷ 230 ∷ 148 ∷ 182 ∷ 229
    ∷ 136 ∷ 176 ∷ 230 ∷ 182 ∷ 136 ∷ 230 ∷ 129 ∷ 175 ∷ 58 ∷ 32 ∷ []

-- The text that came in is repeated, a zero at its end included, and another zero is put behind it.
abbrev pub response : Packet → Packet
response packet = packet_of PacketType.text (received_label ++ (packet.payload ++ 0 ∷ []))

abbrev pub text_handler : ServerHandler
text_handler = record {
  name = 3;
  react = λ packet. calls_session (calls_send (response packet)) ∷ [];
  ends = λ packet. returns tt;
}

-- A handler that only writes to the log.
abbrev pub logs_session : ℕ → SessionHandler
logs_session name = record { name = name; react = [] }

abbrev pub logs_packet : ℕ → ServerHandler
logs_packet name = record { name = name; react = λ packet. []; ends = λ packet. returns tt }

-- "0.0.0.0"
abbrev any_address : List ℕ
any_address = 48 ∷ 46 ∷ 48 ∷ 46 ∷ 48 ∷ 46 ∷ 48 ∷ []

module _ {V : Type 0} where
  -- The handlers that `main` gives to its server.
  unfoldable pub prepare_server : Server V → Server V
  prepare_server s = set_default_packet_handler (logs_packet 6) (
      set_packet_handler PacketType.heartbeat (logs_packet 5) (
        set_packet_handler PacketType.binary (logs_packet 4) (
          set_packet_handler PacketType.text text_handler
            (set_close_handler (logs_session 2) (set_connect_handler (logs_session 1) s)))))

  -- Whether `main` goes on to read lines, and the server, destroyed where it does not.
  unfoldable pub serve : Uv → Server V → Bool × Server V
  serve uv s =
      let (began, t) = start s in
      if not began then (false, destroy t) else (true, listen uv any_address 8080 t)

  -- A line that the user types; "quit" ends `main`, with the destructor of the server.
  unfoldable pub enter_server : List ℕ → Server V → Bool × Server V
  unfolding same_text
  enter_server line s =
      if same_text line quit_word then (true, destroy (stop (stop_listening s))) else (false, s)
