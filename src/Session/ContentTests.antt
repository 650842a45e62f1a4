-- ===== src/Session/ContentTests.antt =====
-- Sessions with an interceptor of JSON or Protobuf on concrete packets.
use libuv_net.Base.{
  some, ◌==◌, ◌&&◌, ℕ, length, ◌≡◌, refl, false, [], ◌∷◌, none, if◌then◌else◌, arith,
}
use libuv_net.Base.Outcome.{throws, returns}
use libuv_net.Base.Map.{lookup}
use libuv_net.Packet.{Packet, serialize}
use libuv_net.Packet.PacketType
use libuv_net.Packet.RoundTrip.{IsWire}
use libuv_net.Interceptor.Any.{Any}
use libuv_net.Interceptor.Json.{JsonLibrary, document, parse_error, out_of_range}
use libuv_net.Interceptor.Protobuf.{ProtobufLibrary}
use libuv_net.Uv.{inet, received}
use libuv_net.Samples.{willing, braces, little_endian, little_endian-IsByteAbi}
use libuv_net.Session.Defs.{Conn, PacketHandler, calls_send, accept, new}
use libuv_net.Session.Receive.{on_read}
use libuv_net.Session.Refinement.{session}
use libuv_net.Session.Content.{is_some, equipped, handed, dropped, on_read-interceptors}

-- A library for JSON that knows "{}" only, and finds every other content out of range.
abbrev braces_only : JsonLibrary ℕ
braces_only = record {
  dump = λ j. returns (123 ∷ 125 ∷ []);
  parse = λ bytes. if length bytes == 2 then document 0 else out_of_range;
}

abbrev unknown : ProtobufLibrary ℕ
unknown = record { known = false; serialize_to_string = λ m. none; parse = λ bytes. some 0 }

abbrev shows : PacketHandler
shows = record { name = 3; react = λ p. calls_send p ∷ []; ends = λ packet. returns tt }

abbrev handles_both : Conn (Any ℕ ℕ)
handles_both = record (accept (Any ℕ ℕ) 1 (inet [] 80) []).conn {
  packet_handlers = (PacketType.json, shows) ∷ (PacketType.protobuf, shows) ∷ [];
}

abbrev huge : Packet
huge = record braces { payload = 49 ∷ 101 ∷ 57 ∷ 57 ∷ 57 ∷ [] }

abbrev encoded : Packet
encoded = record braces { type = PacketType.protobuf }

huge-IsWire : IsWire huge
huge-IsWire = record {
  type = omega arith;
  sequence = omega arith;
  bytes = ground arith;
  short = omega arith;
}

encoded-IsWire : IsWire encoded
encoded-IsWire = record {
  type = omega arith;
  sequence = omega arith;
  bytes = ground arith;
  short = omega arith;
}

unread : handles_both.read_handler ≡ none
unfolding accept new
unread = refl

json_found : lookup PacketType.json handles_both.packet_handlers ≡ some shows
unfolding lookup
json_found = refl

protobuf_found : lookup PacketType.protobuf handles_both.packet_handlers ≡ some shows
unfolding lookup
protobuf_found = refl

on_read-interceptors_example :
    (on_read willing
        (received (serialize little_endian huge))
        (session (equipped braces_only unknown handles_both) [])
      ≡ (elim (braces_only.parse huge.payload) [
        | document j ↦ handed willing braces_only unknown handles_both shows huge
        | parse_error ↦ returns (dropped braces_only unknown handles_both)
        | out_of_range ↦ throws
      ]))
    × (on_read willing
          (received (serialize little_endian encoded))
          (session (equipped braces_only unknown handles_both) [])
        ≡ (if unknown.known && is_some (unknown.parse encoded.payload)
            then handed willing braces_only unknown handles_both shows encoded
            else returns (dropped braces_only unknown handles_both)))
on_read-interceptors_example =
    on_read-interceptors willing braces_only unknown handles_both huge encoded shows shows unread
      little_endian-IsByteAbi huge-IsWire encoded-IsWire refl refl json_found protobuf_found
