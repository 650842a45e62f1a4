-- ===== src/Packet/Tests.antt =====
-- Runs of the wire format on concrete packets.
use libuv_net.Base.{ℕ, ◌+◌, ◌≡◌, refl, true, false, List, [], ◌∷◌, ◌++◌, take, All, arith}
use libuv_net.Packet.{
  empty_packet, serialize, deserialize, header_size, read_header, abi_at, IsByte,
}
use libuv_net.Packet.Header.{header_bytes}
use libuv_net.Packet.Words.{word_bytes, word_of}
use libuv_net.Packet.RoundTrip.{deserialize-serialize, serialize-deserialize}
use libuv_net.Samples.{little_endian, greeting, greeting-IsWire}

-- "hi" on the wire
abbrev image : List ℕ
image = 1 ∷ 0 ∷ 0 ∷ 0 ∷ 2 ∷ 0 ∷ 0 ∷ 0 ∷ 7 ∷ 0 ∷ 0 ∷ 0 ∷ 104 ∷ 105 ∷ []

image_eq : serialize little_endian greeting ≡ image
unfolding serialize header_bytes word_bytes
image_eq = refl

deserialize-serialize_example :
    deserialize little_endian empty_packet (serialize little_endian greeting ++ 1 ∷ []) 14
    ≡ (greeting, true)
deserialize-serialize_example =
    deserialize-serialize little_endian greeting (1 ∷ []) greeting-IsWire empty_packet 14
      (omega arith)

image_bytes : All IsByte image
image_bytes = ground arith

parses : deserialize little_endian empty_packet image 14 ≡ (greeting, true)
unfolding deserialize read_header word_of
parses = refl

serialize-deserialize_example :
    serialize (abi_at little_endian image) greeting
    ≡ take (header_size + (read_header little_endian image).length) image
serialize-deserialize_example =
    serialize-deserialize little_endian image image_bytes greeting empty_packet 14 (omega arith)
      parses

-- The first 13 bytes only
cut : deserialize little_endian empty_packet image 13 ≡ (record greeting { payload = [] }, false)
unfolding deserialize read_header word_of
cut = refl
