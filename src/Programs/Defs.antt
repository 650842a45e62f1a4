-- ===== src/Programs/Defs.antt =====
-- tests/client_test.cpp: the client, its handlers, and the lines that its user types.
--
-- What the handlers write to the log and the flags that they set are read off the history of the
-- client. A text is the list of its bytes. `pretty` is `dump(4)`.
use Prim.Native.String.{String}
use libuv_net.Base.{
  ℕ, zero, suc, ◌==◌, Bool, true, false, not, List, [], ◌∷◌, ◌++◌, length, if◌then◌else◌,
}
use libuv_net.Base.Outcome.{Outcome, returns, throws, ◌>>=◌, foldm}
use libuv_net.Packet.{Packet, packet_of}
use libuv_net.Packet.PacketType
use libuv_net.Interceptor.Any.{Any, json}
use libuv_net.Interceptor.Json.{JsonLibrary, document, parse_error, out_of_range, json_interceptor}
use libuv_net.Interceptor.Protobuf.{ProtobufLibrary, protobuf_interceptor}
use libuv_net.Uv.{Uv, Event}
use libuv_net.Server.Id.{same_text}
use libuv_net.Client.Defs.{
  PacketHandler, Handler, Link, Client, on_link, set_connect_handler, set_disconnect_handler,
  set_packet_handler, set_default_packet_handler, add_client_interceptor, start, stop, connect,
  disconnect, destroy, send, send_data,
}
use libuv_net.Client.Lifecycle.{Input, step}
use libuv_net.Programs.Hex.{parse_binary}

-- The handlers call nothing on their client.
abbrev handler_of : ℕ → Handler
handler_of name = record { name = name; react = [] }

abbrev pub packet_handler_of : ℕ → PacketHandler
packet_handler_of name = record { name = name; react = λ packet. []; ends = λ packet. returns tt }

abbrev pub on_connected : ℕ
on_connected = 1

abbrev pub on_disconnected : ℕ
on_disconnected = 2

abbrev pub on_text : ℕ
on_text = 3

abbrev pub on_json : ℕ
on_json = 4

abbrev pub on_binary : ℕ
on_binary = 5

abbrev pub on_heartbeat : ℕ
on_heartbeat = 6

abbrev pub on_other : ℕ
on_other = 7

-- A line of the log: a label, with a text or a number behind it.
pub data Shown : Type 0 where
  note : (label : String) → Shown
  text : (label : String) → List ℕ → Shown
  number : (label : String) → ℕ → Shown

-- What the main thread waits for.
pub data Prompt : Type 0 where
  asks_kind asks_text asks_json asks_binary ended : Prompt

pub record App (V : Type 0) : Type 0 where
  pub client : Client V
  pub prompt : Prompt

-- `should_exit`, which the handler of the disconnection sets
abbrev pub should_exit : List Event → Bool
should_exit [] = false
should_exit (Event.call_close name ∷ es) = true
should_exit (_ ∷ es) = should_exit es

module _ {J : Type 0} (lib : JsonLibrary J) (pretty : J → List ℕ) where
  -- The bodies of the packet handlers. Content that gives no JSON is passed over; content out of
  -- range does not come here, since the interceptor has thrown before.
  unfoldable pub show_packet : ℕ → Packet → List Shown
  show_packet name packet =
      let document_lines : List Shown = elim (lib.parse packet.payload) [
        | document j ↦ text "收到JSON消息: " (pretty j) ∷ []
        | parse_error ↦ []
        | out_of_range ↦ []
      ] in
      if name == on_text
      then text "收到文本消息: " packet.payload ∷ []
      else if name == on_json
      then document_lines
      else if name == on_binary
      then number "收到二进制消息，长度: " (length packet.payload) ∷ []
      else if name == on_heartbeat
      then note "收到心跳包" ∷ []
      else number "收到未知类型消息: " packet.type ∷ []

  -- The log of the handlers, newest first.
  unfoldable pub shown : List Event → List Shown
  unfolding show_packet
  shown [] = []
  shown (Event.call_packet name packet ∷ es) = show_packet name packet ++ shown es
  shown (Event.call_connect name ∷ es) = note "已连接到服务器" ∷ shown es
  shown (Event.call_close name ∷ es) = note "已断开与服务器的连接" ∷ shown es
  shown (_ ∷ es) = shown es

-- The interceptors and the handlers that `main` gives to its client.
unfoldable pub prepare :
    {J M : Type 0} → JsonLibrary J → ProtobufLibrary M → Link (Any J M) → Link (Any J M)
prepare lib protobuf l = set_default_packet_handler (packet_handler_of on_other) (
    set_packet_handler PacketType.heartbeat (packet_handler_of on_heartbeat) (
      set_packet_handler PacketType.binary (packet_handler_of on_binary) (
        set_packet_handler PacketType.json (packet_handler_of on_json) (
          set_packet_handler PacketType.text (packet_handler_of on_text) (
            set_disconnect_handler (handler_of on_disconnected) (
              set_connect_handler (handler_of on_connected) (
                add_client_interceptor (protobuf_interceptor protobuf)
                  (add_client_interceptor (json_interceptor lib) l))))))))

-- "127.0.0.1"
abbrev pub localhost : List ℕ
localhost = 49 ∷ 50 ∷ 55 ∷ 46 ∷ 48 ∷ 46 ∷ 48 ∷ 46 ∷ 49 ∷ []

module _ {V : Type 0} where
  -- The end of `main`, with the destructor of the client
  unfoldable pub finish : App V → App V
  finish a = record a { client = on_link destroy (on_link disconnect a.client); prompt = ended }

  -- The test of the `while`, after a round
  unfoldable pub next_round : App V → App V
  unfolding finish
  next_round a = if should_exit a.client.history then finish a else record a { prompt = asks_kind }

module _ {V : Type 0} (uv : Uv) where
  -- `rounds` is `max_retries - retry_count`; `during` is what the thread of the loop does while the
  -- main thread sleeps after an attempt that has failed.
  unfoldable pub try_connect : (ℕ → Link V → Link V) → ℕ → Link V → Bool × Link V
  try_connect during zero l = (false, l)
  try_connect during (suc rounds) l =
      let (begun, m) = connect uv localhost 8080 l in
      let again = try_connect during rounds (if rounds == 0 then m else during rounds m) in
      if begun then (true, m) else again

  -- From `client->start()` on: whether `main` goes on, and the client, destroyed where it does not.
  unfoldable pub start_up : (ℕ → Link V → Link V) → Link V → Bool × Link V
  start_up during l =
      let (began, m) = start l in
      let (reached, n) = try_connect during 3 m in
      if not began
      then (false, destroy m)
      else if not reached
      then (false, destroy (stop n))
      else (true, n)

  unfoldable pub send_line : ℕ → List ℕ → App V → App V
  unfolding next_round
  send_line type bytes a =
      next_round (record a { client = on_link (send uv (packet_of type bytes)) a.client })

-- "quit", "text", "json", "binary"
abbrev pub quit_word : List ℕ
quit_word = 113 ∷ 117 ∷ 105 ∷ 116 ∷ []

abbrev pub text_word : List ℕ
text_word = 116 ∷ 101 ∷ 120 ∷ 116 ∷ []

abbrev pub json_word : List ℕ
json_word = 106 ∷ 115 ∷ 111 ∷ 110 ∷ []

abbrev pub binary_word : List ℕ
binary_word = 98 ∷ 105 ∷ 110 ∷ 97 ∷ 114 ∷ 121 ∷ []

module _ {V : Type 0} where
  unfoldable pub choose : List ℕ → App V → App V
  unfolding next_round finish same_text
  choose line a =
      if same_text line quit_word
      then finish a
      else if same_text line text_word
      then record a { prompt = asks_text }
      else if same_text line json_word
      then record a { prompt = asks_json }
      else if same_text line binary_word
      then record a { prompt = asks_binary }
      else next_round a

module _ {J M : Type 0} (uv : Uv) (lib : JsonLibrary J) where
  -- A document is sent through the interceptor of its type. Only `parse_error` is caught.
  unfoldable pub enter_json : List ℕ → App (Any J M) → Outcome (App (Any J M))
  unfolding next_round
  enter_json line a = elim (lib.parse line) [
    | document j ↦ send_data uv PacketType.json (json j) a.client.link >>= λ l.
        returns (next_round (record a { client = record a.client { link = l } }))
    | parse_error ↦ returns (next_round a)
    | out_of_range ↦ throws
  ]

  -- A text goes out with a zero behind it. Nothing is read once `main` has ended.
  unfoldable pub enter : Prompt → List ℕ → App (Any J M) → Outcome (App (Any J M))
  unfolding choose send_line next_round enter_json parse_binary
  enter asks_kind line a = returns (choose line a)
  enter asks_text [] a = returns (next_round a)
  enter asks_text (c ∷ cs) a = returns (send_line uv PacketType.text (c ∷ cs ++ 0 ∷ []) a)
  enter asks_json [] a = returns (next_round a)
  enter asks_json (c ∷ cs) a = enter_json (c ∷ cs) a
  enter asks_binary [] a = returns (next_round a)
  enter asks_binary (c ∷ cs) a =
      parse_binary (c ∷ cs) >>= λ bytes. returns (send_line uv PacketType.binary bytes a)
  enter ended line a = returns a

  -- What the thread of the loop does, as long as there is a client.
  unfoldable pub callback : Prompt → Input (Any J M) → App (Any J M) → Outcome (App (Any J M))
  callback ended i a = returns a
  callback _ i a = step uv a.client i >>= λ c. returns (record a { client = c })

-- A line that the user types, or a callback of the client on the thread of the loop.
pub data Happening (V : Type 0) : Type 0 where
  types : List ℕ → Happening V
  client_does : Input V → Happening V

module _ {J M : Type 0} (uv : Uv) (lib : JsonLibrary J) where
  unfoldable pub happen : App (Any J M) → Happening (Any J M) → Outcome (App (Any J M))
  unfolding enter callback
  happen a (types line) = enter uv lib a.prompt line a
  happen a (client_does i) = callback uv lib a.prompt i a

  abbrev pub run : App (Any J M) → List (Happening (Any J M)) → Outcome (App (Any J M))
  run = foldm happen
