-- ===== src/Packet/Header.antt =====
-- `struct PacketHeader` of include/libuv_net/message.hpp, and its image in memory.
use libuv_net.Base.{ℕ, ◌≤◌, ◌<◌, ◌^◌, ◌≡◌, refl, List, ◌∷◌, ◌++◌, length, take, get_or, All, arith}
use libuv_net.Packet.Words.{
  Endian, word_bytes, word_at, word_of-word_bytes, word_bytes-word_of, word_of-lt,
}

-- What the compiler and the target fix: the byte order, and the two bytes of padding.
pub record Abi : Type 0 where
  pub endian : Endian
  pub pad_lo : ℕ
  pub pad_hi : ℕ

pub record PacketHeader : Type 0 where
  pub version : ℕ
  pub type : ℕ
  pub length : ℕ
  pub sequence : ℕ

-- sizeof(PacketHeader)
abbrev pub header_size : ℕ
header_size = 12

unfoldable pub header_bytes : Abi → PacketHeader → List ℕ
header_bytes abi h =
    h.version
    ∷ h.type
    ∷ abi.pad_lo
    ∷ abi.pad_hi
    ∷ (word_bytes abi.endian h.length ++ word_bytes abi.endian h.sequence)

-- `reinterpret_cast<const PacketHeader *>(mem)`; a byte behind the end of `mem` is read as 0.
unfoldable pub read_header : Abi → List ℕ → PacketHeader
read_header abi mem = record {
  version = get_or mem 0 0;
  type = get_or mem 1 0;
  length = word_at abi.endian mem 4;
  sequence = word_at abi.endian mem 8;
}

abbrev pub IsByte : ℕ → Type 0
IsByte b = b < 256

-- The padding that `mem` has in place of the compiler's.
abbrev pub abi_at : Abi → List ℕ → Abi
abi_at abi mem = record abi { pad_lo = get_or mem 2 0; pad_hi = get_or mem 3 0 }

pub record IsByteAbi (abi : Abi) : Type 0 where
  pub pad_lo : IsByte abi.pad_lo
  pub pad_hi : IsByte abi.pad_hi

pub All-header_bytes :
    (abi : Abi) (h : PacketHeader)
    → IsByteAbi abi
    → h.version < 256
    → h.type < 256
    → All IsByte (header_bytes abi h)
unfolding header_bytes word_bytes
All-header_bytes abi h pads hv ht = ground arith

pub length-header_bytes : (abi : Abi) (h : PacketHeader) → length (header_bytes abi h) ≡ header_size
unfolding header_bytes word_bytes
length-header_bytes abi h = ground arith

-- A header is read back from its image, whatever stands behind it.
pub read_header-header_bytes :
    (abi : Abi) (h : PacketHeader) (rest : List ℕ)
    → h.length < 2 ^ 32
    → h.sequence < 2 ^ 32
    → read_header abi (header_bytes abi h ++ rest) ≡ h
unfolding read_header header_bytes word_bytes
read_header-header_bytes abi h rest hl hs =
    ground (arith, word_of-word_bytes abi.endian h.length, word_of-word_bytes abi.endian h.sequence)

pub header_bytes-read_header :
    (abi : Abi) (mem : List ℕ)
    → All IsByte mem
    → header_size ≤ length mem
    → header_bytes (abi_at abi mem) (read_header abi mem) ≡ take header_size mem
unfolding read_header header_bytes
header_bytes-read_header abi (a ∷ b ∷ c ∷ d ∷ e ∷ f ∷ g ∷ h ∷ i ∷ j ∷ k ∷ l ∷ rest) bytes long =
    ground (arith, word_bytes-word_of abi.endian e f g h, word_bytes-word_of abi.endian i j k l)
header_bytes-read_header abi _ bytes long = absurd (omega arith)

-- The header is that of the first twelve bytes.
pub read_header-append :
    (abi : Abi) (mem rest : List ℕ)
    → header_size ≤ length mem
    → read_header abi (mem ++ rest) ≡ read_header abi mem
unfolding read_header
read_header-append abi (a ∷ b ∷ c ∷ d ∷ e ∷ f ∷ g ∷ h ∷ i ∷ j ∷ k ∷ l ∷ mem) rest long = refl
read_header-append abi _ rest long = absurd (omega arith)

pub read_header-length_lt :
    (abi : Abi) (mem : List ℕ)
    → All IsByte mem
    → header_size ≤ length mem
    → (read_header abi mem).length < 2 ^ 32
unfolding read_header
read_header-length_lt abi (a ∷ b ∷ c ∷ d ∷ e ∷ f ∷ g ∷ h ∷ rest) bytes long =
    word_of-lt abi.endian e f g h (omega arith) (omega arith) (omega arith) (omega arith)
read_header-length_lt abi _ bytes long = absurd (omega arith)
