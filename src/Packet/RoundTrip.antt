-- ===== src/Packet/RoundTrip.antt =====
-- `serialize` and `deserialize` of include/libuv_net/message.hpp, one after the other.
use libuv_net.Base.{
  ℕ, All-append, ◌+◌, ◌≤◌, ◌<◌, ◌^◌, ◌≡◌, refl, sym, ◌∙◌, true, List, ◌++◌, length, take, drop, All,
  append_assoc, take-append_eq, drop-append_eq, length-append, length-drop, length-take_le,
  take-add, arith,
}
use libuv_net.Packet.{Packet, empty_packet, header_of, serialize, deserialize}
use libuv_net.Packet.Cases.{Accepts, packet_at, deserialize-inv}
use libuv_net.Packet.Header.{
  Abi, header_size, header_bytes, read_header, IsByte, IsByteAbi, All-header_bytes, abi_at,
  length-header_bytes, read_header-header_bytes, header_bytes-read_header, read_header-length_lt,
}

-- The fields fit their C++ types, and the content fits the 32-bit length of the header.
pub record IsWire (p : Packet) : Type 0 where
  pub type : p.type < 256
  pub sequence : p.sequence < 2 ^ 32
  pub bytes : All IsByte p.payload
  pub short : length p.payload < 2 ^ 32

pub length-serialize :
    (abi : Abi) (p : Packet) → length (serialize abi p) ≡ header_size + length p.payload
unfolding serialize
length-serialize abi p = omega (
  arith,
  length-append (header_bytes abi (header_of p)) p.payload,
  length-header_bytes abi (header_of p),
)

pub All-serialize :
    (abi : Abi) → IsByteAbi abi → (p : Packet) → IsWire p → All IsByte (serialize abi p)
unfolding serialize
All-serialize abi pads p wire =
    All-append IsByte (header_bytes abi (header_of p)) p.payload
      (All-header_bytes abi (header_of p) pads (omega arith) wire.type) wire.bytes

module _ (abi : Abi) (p : Packet) (rest : List ℕ) (wire : IsWire p) where
  pub read_header-serialize :
      read_header abi (serialize abi p ++ rest) ≡ record (header_of p) { length = length p.payload }
  unfolding serialize
  read_header-serialize = rw append_assoc (
      read_header-header_bytes abi (header_of p) (p.payload ++ rest) (omega arith) (omega arith)
      ∙ ground arith)

  pub payload-serialize :
      take (length p.payload) (drop header_size (serialize abi p ++ rest)) ≡ p.payload
  unfolding serialize
  payload-serialize = rw append_assoc (
      rw
        (drop-append_eq header_size (header_bytes abi (header_of p)) (p.payload ++ rest)
          (sym (length-header_bytes abi (header_of p))))
        (take-append_eq _ p.payload rest refl))

  -- A packet whose fields fit the wire is read back from its image, whatever the object held before
  -- and whatever bytes follow, if the length that is passed covers the image.
  pub deserialize-serialize :
      (q : Packet) (size : ℕ)
      → header_size + length p.payload ≤ size
      → deserialize abi q (serialize abi p ++ rest) size ≡ (p, true)
  unfolding deserialize
  deserialize-serialize q size fits = ground (arith, read_header-serialize, payload-serialize)

-- The other way round: what is accepted is the image of the packet that comes out.
module _ (abi : Abi) (mem : List ℕ) (bytes : All IsByte mem) where
  header_of-packet_at :
      (size : ℕ)
      → size ≤ length mem
      → Accepts abi mem size
      → header_of (packet_at abi mem) ≡ read_header abi mem
  header_of-packet_at size inside a = ground (
    arith,
    length-take_le (read_header abi mem).length (drop header_size mem),
    length-drop header_size mem,
    read_header-length_lt abi mem bytes,
  )

  serialize-packet_at :
      (size : ℕ)
      → size ≤ length mem
      → Accepts abi mem size
      → serialize (abi_at abi mem) (packet_at abi mem)
        ≡ take (header_size + (read_header abi mem).length) mem
  unfolding serialize
  serialize-packet_at size inside a = rw (header_of-packet_at size inside a) (
      rw (header_bytes-read_header abi mem bytes (omega arith))
        (take-add header_size (read_header abi mem).length mem))

  -- Where bytes are accepted, the packet that comes out has them as its image: the header and as much
  -- behind it as the header says, with the padding that stood there.
  pub serialize-deserialize :
      (p q : Packet) (size : ℕ)
      → size ≤ length mem
      → deserialize abi q mem size ≡ (p, true)
      → serialize (abi_at abi mem) p ≡ take (header_size + (read_header abi mem).length) mem
  serialize-deserialize p q size inside h =
      let (a, e) = deserialize-inv abi q mem size p h in rw e (serialize-packet_at size inside a)

pub empty_packet-IsWire : IsWire empty_packet
empty_packet-IsWire = record {
  type = omega arith;
  sequence = omega arith;
  bytes = tt;
  short = omega arith;
}

pub something : (abi : Abi) → 0 < length (serialize abi empty_packet)
something abi = omega (arith, length-serialize abi empty_packet)
