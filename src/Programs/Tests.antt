-- ===== src/Programs/Tests.antt =====
-- Lines that are typed, and the end of the program.
use libuv_net.Base.{ℕ, ◌≡◌, refl, false, true, [], ◌∷◌, none, some, arith}
use libuv_net.Base.Outcome.{returns}
use libuv_net.Base.Map.{lookup, insert}
use libuv_net.Packet.{packet_of}
use libuv_net.Packet.PacketType
use libuv_net.Interceptor.{get_interceptor, add_interceptor}
use libuv_net.Interceptor.Any.{Any}
use libuv_net.Interceptor.Json.{JsonLibrary, document, json_interceptor}
use libuv_net.Interceptor.Protobuf.{ProtobufLibrary, protobuf_interceptor}
use libuv_net.Samples.{willing}
use libuv_net.Client.Defs.{
  Link, send as client_send, set_connect_handler, set_disconnect_handler, set_packet_handler,
  set_default_packet_handler, add_client_interceptor, disconnect, destroy,
}
use libuv_net.Client.Refinement.{client}
use libuv_net.Programs.Hex.{parse_binary, stoi_byte, two_digits}
use libuv_net.Programs.Defs.{
  App, ended, prepare, run, types, text_word, binary_word, json_word, quit_word, happen,
}
use libuv_net.Programs.Entry.{app, typed_lem}
use libuv_net.Programs.Ending.{IsDown, ended-IsDown}

-- "0aF" gives 0x0a and 0x0F, "-1" gives 255, and "zz" is no number.
odd_digits : parse_binary (48 ∷ 97 ∷ 70 ∷ []) ≡ returns (10 ∷ 15 ∷ [])
unfolding parse_binary stoi_byte
odd_digits = refl

opposite : parse_binary (45 ∷ 49 ∷ []) ≡ returns (255 ∷ [])
unfolding parse_binary stoi_byte
opposite = refl

-- A library for JSON that knows one document, written "{}".
abbrev pub one_document : JsonLibrary ℕ
one_document = record { dump = λ j. returns (123 ∷ 125 ∷ []); parse = λ bytes. document 0 }

abbrev pub nothing_known : ProtobufLibrary ℕ
nothing_known = record { known = false; serialize_to_string = λ m. none; parse = λ bytes. none }

abbrev pub bare : Link (Any ℕ ℕ)
bare = record {
  is_connected = true;
  is_connecting = false;
  socket_closing = false;
  timer_active = true;
  last_heartbeat = 0;
  joinable = true;
  should_stop = false;
  connect_handler = none;
  disconnect_handler = none;
  packet_handlers = [];
  default_packet_handler = none;
  interceptors = [];
  history = [];
}

-- The client of the program, connected.
abbrev pub ready : Link (Any ℕ ℕ)
ready = prepare one_document nothing_known bare

pub awake : ready.history ≡ []
unfolding prepare set_connect_handler set_disconnect_handler set_packet_handler
    set_default_packet_handler add_client_interceptor
awake = refl

has_json : get_interceptor PacketType.json ready.interceptors ≡ some (json_interceptor one_document)
unfolding prepare set_connect_handler set_disconnect_handler set_packet_handler
    set_default_packet_handler add_client_interceptor get_interceptor add_interceptor lookup insert
    json_interceptor protobuf_interceptor
has_json = refl

pub no_text : get_interceptor PacketType.text ready.interceptors ≡ none
unfolding prepare set_connect_handler set_disconnect_handler set_packet_handler
    set_default_packet_handler add_client_interceptor get_interceptor add_interceptor lookup insert
    json_interceptor protobuf_interceptor
no_text = refl

typed_lem_example :
    (run willing one_document
        (app (client ready []))
        (types text_word ∷ types (104 ∷ 105 ∷ []) ∷ [])
      ≡ returns (
          app (
            client
              (client_send willing (packet_of PacketType.text (104 ∷ 105 ∷ 0 ∷ [])) ready)
              [])))
    × (run willing one_document
          (app (client ready []))
          (types binary_word ∷ types (two_digits (1 ∷ 255 ∷ [])) ∷ [])
        ≡ returns (
            app
              (client (client_send willing (packet_of PacketType.binary (1 ∷ 255 ∷ [])) ready) [])))
    × (run willing one_document
          (app (client ready []))
          (types json_word ∷ types (104 ∷ 105 ∷ []) ∷ [])
        ≡ returns (
            app
              (client (client_send willing (packet_of PacketType.json (123 ∷ 125 ∷ [])) ready) [])))
typed_lem_example =
    typed_lem willing one_document 104 (105 ∷ []) (123 ∷ 125 ∷ []) 1 (255 ∷ []) 0 ready (rw awake)
      (ground arith) refl refl has_json

-- The user quits.
over : App (Any ℕ ℕ)
over = record { client = client (destroy (disconnect ready)) []; prompt = ended }

quits : run willing one_document (app (client ready [])) (types quit_word ∷ []) ≡ returns over
unfolding happen over
quits = refl

over_ended : over.prompt ≡ ended
unfolding over
over_ended = refl

ended-IsDown_example : IsDown over.client.link
ended-IsDown_example =
    ended-IsDown willing one_document (client ready []) (types quit_word ∷ []) over quits over_ended
