-- ===== src/Framing/Waiting.antt =====
-- The rest of a split: the beginning of a frame that has not come in whole.
use libuv_net.Base.{ℕ, ◌+◌, ◌^◌, ◌<◌, List, length, All, inl, inr, ◌⊎◌, dec_lt, arith}
use libuv_net.Packet.{Abi, header_size, IsByte}
use libuv_net.Packet.Header.{read_header-length_lt}
use libuv_net.Framing.{frame_size, frames, frames_induction}
use libuv_net.Framing.Prefix.{All-rest}

-- Bytes that are too few for a header, or for the frame that the header announces.
pub record IsWaiting (abi : Abi) (buffer : List ℕ) : Type 0 where
  pub bytes : All IsByte buffer
  pub short : (length buffer < header_size) ⊎ (length buffer < frame_size abi buffer)

module _ (abi : Abi) where
  short-rest :
      (b : List ℕ)
      → let r = (frames abi b).rest in (length r < header_size) ⊎ (length r < frame_size abi r)
  short-rest =
      frames_induction abi
        (λ b fr. (length fr.rest < header_size) ⊎ (length fr.rest < frame_size abi fr.rest))
        (λ b h. inl h) (λ b h k. inr k) (λ b h k v. inl (omega arith)) (λ b h k v later. later)

  pub rest-IsWaiting : (b : List ℕ) → All IsByte b → IsWaiting abi (frames abi b).rest
  rest-IsWaiting b all = record { bytes = All-rest abi b all; short = short-rest b }

  pub length-IsWaiting : (b : List ℕ) → IsWaiting abi b → length b < header_size + 2 ^ 32
  length-IsWaiting b h = elim (dec_lt (length b) header_size) [
    | yes few ↦ omega arith
    | no long ↦ elim h.short [
      | inl few ↦ omega arith
      | inr part ↦ omega (arith, read_header-length_lt abi b h.bytes (omega arith))
    ]
  ]
