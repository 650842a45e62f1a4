-- ===== src/Packet.antt =====
-- The wire format of include/libuv_net/message.hpp: `PacketHeader` and `Packet`. A byte is a
-- number, a byte vector a list of them.
--
-- `serialize` copies the header struct as it lies in memory, so its image depends on the compiler:
-- one byte `version`, one byte `type`, two bytes of padding, then `length` and `sequence` as 32-bit
-- words, 12 bytes in all. The order of the bytes of a word and the content of the padding, which
-- the language leaves open, are the record `Abi`.
pub mod PacketType
pub mod Words
pub mod Header
pub mod RoundTrip
pub mod Cases
mod Tests
use libuv_net.Base.{
  ℕ, ◌+◌, ◌%◌, ◌^◌, Bool, true, false, List, [], ◌∷◌, ◌++◌, ltb, ◌==◌, not, if◌then◌else◌, length,
  take, drop, get_or,
}
unfoldable pub use Header.{header_bytes, read_header}
pub use Header.{Abi, PacketHeader, header_size, IsByte, abi_at}

-- PROTOCOL_VERSION
abbrev pub protocol_version : ℕ
protocol_version = 1

pub record Packet : Type 0 where
  pub type : ℕ
  pub payload : List ℕ
  pub sequence : ℕ

-- `Packet()`
abbrev pub empty_packet : Packet
empty_packet = record { type = PacketType.text; payload = []; sequence = 0 }

-- `Packet(type, data)`, with the default sequence number
abbrev pub packet_of : ℕ → List ℕ → Packet
packet_of type payload = record { type = type; payload = payload; sequence = 0 }

abbrev pub set_type : ℕ → Packet → Packet
set_type type p = record p { type = type }

abbrev pub set_data : List ℕ → Packet → Packet
set_data payload p = record p { payload = payload }

abbrev pub set_sequence : ℕ → Packet → Packet
set_sequence sequence p = record p { sequence = sequence }

-- The header that `serialize` builds; the size is cast to 32 bits.
abbrev pub header_of : Packet → PacketHeader
header_of p = record {
  version = protocol_version;
  type = p.type;
  length = length p.payload % 2 ^ 32;
  sequence = p.sequence;
}

unfoldable pub serialize : Abi → Packet → List ℕ
serialize abi p = header_bytes abi (header_of p) ++ p.payload

-- `p` is the object before the call, `mem` the memory from `data` on, `size` the argument `length`.
-- The type and the sequence number are written before the last check.
unfoldable pub deserialize : Abi → Packet → List ℕ → ℕ → Packet × Bool
deserialize abi p mem size =
    let header = read_header abi mem in
    let known = record p { type = header.type; sequence = header.sequence } in
    if ltb size header_size
    then (p, false)
    else if not (header.version == protocol_version)
    then (p, false)
    else if ltb size (header_size + header.length)
    then (known, false)
    else (record known { payload = take header.length (drop header_size mem) }, true)
