-- ===== src/Console.antt =====
-- The handlers of example/test_console.cpp. What they print is a list of lines: a label, and a text as
-- the list of its character codes. The JSON library is a parameter, with what `dump(4)` prints.
pub mod Main
mod Tests
use Prim.Native.String.{String}
use libuv_net.Base.{
  ℕ, ◌+◌, ◌*◌, ◌<◌, ◌≡◌, ◌≢◌, refl, ap, ◌∙◌, Bool, true, false, List, [], ◌∷◌, ◌++◌, append_assoc,
  Option, none, some, All, ltb, ◌==◌, if◌then◌else◌, Bool-cases, inl, inr, arith,
}
use libuv_net.Base.Outcome.{Outcome, returns, throws, ◌>>=◌}
use libuv_net.Base.Hex.{digit, digit_value, hex}
use libuv_net.Packet.{Packet, IsByte}
use libuv_net.Packet.PacketType
use libuv_net.Interceptor.Any.{Any, json, message, other}
use libuv_net.Interceptor.Json.{JsonLibrary, document, parse_error, out_of_range, deserialize}

pub record Line : Type 0 where
  pub label : String
  pub text : List ℕ

-- Each byte as an `int` in hexadecimal, and a space.
unfoldable pub hex_dump : List ℕ → List ℕ
unfolding hex
hex_dump [] = []
hex_dump (byte ∷ bytes) = hex 2 byte ++ 32 ∷ hex_dump bytes

-- `M` are the other things that a `std::any` may hold.
module _ {J : Type 0} (M : Type 0) (lib : JsonLibrary J) (pretty : J → List ℕ) where
  -- `std::any_cast<nlohmann::json>`: `bad_any_cast` on an empty value or another one
  abbrev pub any_cast : Option (Any J M) → Outcome J
  any_cast (some (json j)) = returns j
  any_cast (some (message m)) = throws
  any_cast (some other) = throws
  any_cast none = throws

  -- The two handlers differ in their labels only.
  abbrev pub handle : String → String → Packet → Outcome (List Line)
  handle json_label binary_label packet =
      let shown = deserialize {M = M} lib packet.payload >>= λ data_any.
      any_cast data_any >>= λ j. returns (record { label = json_label; text = pretty j } ∷ []) in
      if packet.type == PacketType.json
      then shown
      else if packet.type == PacketType.binary
      then returns (record { label = binary_label; text = hex_dump packet.payload } ∷ [])
      else returns []

  unfoldable pub handle_server_packet : Packet → Outcome (List Line)
  unfolding deserialize hex_dump
  handle_server_packet packet = handle "服务器收到 JSON 数据: " "服务器收到二进制数据: " packet

  unfoldable pub handle_client_packet : Packet → Outcome (List Line)
  unfolding deserialize hex_dump
  handle_client_packet packet = handle "客户端收到 JSON 数据: " "客户端收到二进制数据: " packet

-- Reads numbers in hexadecimal back, each up to its space.
abbrev pub read_dump : ℕ → List ℕ → List ℕ
read_dump n [] = []
read_dump n (c ∷ cs) =
    let ends = read_dump 0 cs in
    let goes_on = read_dump (n * 16 + digit_value c) cs in if c == 32 then n ∷ ends else goes_on

read_dump-hex :
    (byte : ℕ) (rest : List ℕ)
    → byte < 256
    → read_dump 0 (hex 2 byte ++ 32 ∷ rest) ≡ byte ∷ read_dump 0 rest
unfolding hex
read_dump-hex byte rest h = ground arith

read_dump-hex_dump : (bytes : List ℕ) → All IsByte bytes → read_dump 0 (hex_dump bytes) ≡ bytes
unfolding hex_dump
read_dump-hex_dump [] h = refl
read_dump-hex_dump (byte ∷ bytes) h =
    read_dump-hex byte (hex_dump bytes) h.0 ∙ ap (◌∷◌ byte) (read_dump-hex_dump bytes h.1)

module _ {J : Type 0} (M : Type 0) (lib : JsonLibrary J) (pretty : J → List ℕ) where
  -- What a handler with these labels makes of a packet: `text` is what it prints of binary content.
  pub record Prints (json_label binary_label : String) (p : Packet) (lines : Outcome (List Line))
      : Type 0 where
    pub text : List ℕ
    pub reads_back : read_dump 0 text ≡ p.payload
    pub printed : lines ≡ (
        if p.type == PacketType.json
        then elim (lib.parse p.payload) [
          | document j ↦ returns (record { label = json_label; text = pretty j } ∷ [])
          | parse_error ↦ throws
          | out_of_range ↦ throws
        ]
        else if p.type == PacketType.binary
        then returns (record { label = binary_label; text = text } ∷ [])
        else returns [])

  handle-Prints :
      (json_label binary_label : String) (p : Packet)
      → All IsByte p.payload
      → Prints json_label binary_label p (handle M lib pretty json_label binary_label p)
  unfolding deserialize
  handle-Prints json_label binary_label p bytes = record {
    text = hex_dump p.payload;
    reads_back = read_dump-hex_dump p.payload bytes;
    printed = ground arith;
  }

  -- Both handlers, on a packet of bytes: content of JSON that parses is printed, and content that does
  -- not ends the handler with an exception; binary content is printed in full, since it can be read
  -- back from the line; of a packet of another type nothing is printed.
  pub console_output :
      (p : Packet)
      → All IsByte p.payload
      → Prints "服务器收到 JSON 数据: " "服务器收到二进制数据: " p (handle_server_packet M lib pretty p)
        × Prints "客户端收到 JSON 数据: " "客户端收到二进制数据: " p (handle_client_packet M lib pretty p)
  unfolding handle_server_packet handle_client_packet
  console_output p bytes = (handle-Prints _ _ p bytes, handle-Prints _ _ p bytes)
