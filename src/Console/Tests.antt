-- ===== src/Console/Tests.antt =====
-- Binary content, and content of JSON that does not parse.
use libuv_net.Base.{ℕ, ◌≡◌, refl, List, [], ◌∷◌, arith}
use libuv_net.Base.Outcome.{throws}
use libuv_net.Packet.{Packet}
use libuv_net.Packet.PacketType
use libuv_net.Interceptor.Json.{JsonLibrary, parse_error}
use libuv_net.Console.{Prints, hex_dump, handle_server_packet, handle_client_packet, console_output}

abbrev nothing_parses : JsonLibrary ℕ
nothing_parses = record { dump = λ j. throws; parse = λ bytes. parse_error }

abbrev pretty : ℕ → List ℕ
pretty j = []

abbrev five : Packet
five = record { type = PacketType.binary; payload = 1 ∷ 2 ∷ 255 ∷ []; sequence = 2 }

-- "1 2 ff "
printed : hex_dump five.payload ≡ 49 ∷ 32 ∷ 50 ∷ 32 ∷ 102 ∷ 102 ∷ 32 ∷ []
unfolding hex_dump
printed = refl

bad : handle_server_packet ℕ nothing_parses pretty (record five { type = PacketType.json }) ≡ throws
unfolding handle_server_packet
bad = refl

console_output_example :
    Prints ℕ nothing_parses pretty "服务器收到 JSON 数据: " "服务器收到二进制数据: " five
      (handle_server_packet ℕ nothing_parses pretty five)
    × Prints ℕ nothing_parses pretty "客户端收到 JSON 数据: " "客户端收到二进制数据: " five
        (handle_client_packet ℕ nothing_parses pretty five)
console_output_example = console_output ℕ nothing_parses pretty five (ground arith)
