-- ===== src/Framing.antt =====
-- What both ends promise of the byte stream, apart from the loops in src/session.cpp and
-- src/client.cpp that do it: how a buffer splits into packets and a rest.
pub mod Stream
pub mod Prefix
pub mod Waiting
pub mod Loop
pub mod Chunks
use libuv_net.Base.{
  ℕ, zero, suc, ◌+◌, ◌≤◌, ◌<◌, ◌≢◌, ◌≡◌, refl, ap, ◌∙◌, sym, Bool, true, false, not, List, [], ◌∷◌,
  ◌++◌, length, drop, length-drop, ltb, ◌==◌, if◌then◌else◌, arith, Bool-cases, inl, inr, dec_lt,
  ℕ_discrete,
}
use libuv_net.Packet.{Abi, header_size, read_header, protocol_version, Packet}
use libuv_net.Packet.Cases.{packet_at}

-- The packets that stand whole at the front of a buffer, and what is left. `sound` fails where a
-- header of another version stands next: then all that is left is thrown away.
pub record Frames : Type 0 where
  pub packets : List Packet
  pub rest : List ℕ
  pub sound : Bool

abbrev pub push_frame : Packet → Frames → Frames
push_frame p r = record r { packets = p ∷ r.packets }

abbrev pub partial : List ℕ → Frames
partial buffer = record { packets = []; rest = buffer; sound = true }

abbrev pub broken : Frames
broken = record { packets = []; rest = []; sound = false }

-- The bytes of the frame that begins at the front.
abbrev pub frame_size : Abi → List ℕ → ℕ
frame_size abi buffer = header_size + (read_header abi buffer).length

frames_fuel : Abi → ℕ → List ℕ → Frames
frames_fuel abi zero buffer = partial buffer
frames_fuel abi (suc fuel) buffer =
    let more =
      push_frame (packet_at abi buffer)
        (frames_fuel abi fuel (drop (frame_size abi buffer) buffer)) in
    if ltb (length buffer) header_size
    then partial buffer
    else if ltb (length buffer) (frame_size abi buffer)
    then partial buffer
    else if (read_header abi buffer).version == protocol_version
    then more
    else broken

-- Each frame takes twelve bytes at least, so a round for each byte is more than enough.
unfoldable pub frames : Abi → List ℕ → Frames
unfolding frames_fuel
frames abi buffer = frames_fuel abi (suc (length buffer)) buffer

frames_fuel-enough :
    (abi : Abi) (m n : ℕ) (buffer : List ℕ)
    → length buffer < m
    → length buffer < n
    → frames_fuel abi m buffer ≡ frames_fuel abi n buffer
unfolding frames_fuel
frames_fuel-enough abi zero n buffer hm hn = absurd (omega arith)
frames_fuel-enough abi (suc m) zero buffer hm hn = absurd (omega arith)
frames_fuel-enough abi (suc m) (suc n) buffer hm hn = ground (
  arith,
  frames_fuel-enough abi m n (drop (frame_size abi buffer) buffer),
  length-drop (frame_size abi buffer) buffer,
)

module _ (abi : Abi) (buffer : List ℕ) where
  pub frames-short : length buffer < header_size → frames abi buffer ≡ partial buffer
  unfolding frames
  frames-short h = ground arith

  pub frames-partial :
      header_size ≤ length buffer
      → length buffer < frame_size abi buffer
      → frames abi buffer ≡ partial buffer
  unfolding frames
  frames-partial h k = ground arith

  pub frames-broken :
      header_size ≤ length buffer
      → frame_size abi buffer ≤ length buffer
      → (read_header abi buffer).version ≢ protocol_version
      → frames abi buffer ≡ broken
  unfolding frames
  frames-broken h k v = ground arith

  pub frames-next :
      header_size ≤ length buffer
      → frame_size abi buffer ≤ length buffer
      → (read_header abi buffer).version ≡ protocol_version
      → frames abi buffer
        ≡ push_frame (packet_at abi buffer) (frames abi (drop (frame_size abi buffer) buffer))
  unfolding frames
  frames-next h k v = ground (
    arith,
    frames_fuel-enough abi (length buffer) (suc (length (drop (frame_size abi buffer) buffer)))
        (drop (frame_size abi buffer) buffer),
    length-drop (frame_size abi buffer) buffer,
  )

-- Induction along the split of a buffer.
module _ (abi : Abi) (P : List ℕ → Frames → Type 0)
    (short : (b : List ℕ) → length b < header_size → P b (partial b))
    (part : (b : List ℕ) → header_size ≤ length b → length b < frame_size abi b → P b (partial b))
    (bad : (b : List ℕ)
      → header_size ≤ length b
      → frame_size abi b ≤ length b
      → (read_header abi b).version ≢ protocol_version
      → P b broken)
    (next : (b : List ℕ)
      → header_size ≤ length b
      → frame_size abi b ≤ length b
      → (read_header abi b).version ≡ protocol_version
      → P (drop (frame_size abi b) b) (frames abi (drop (frame_size abi b) b))
      → P b (push_frame (packet_at abi b) (frames abi (drop (frame_size abi b) b)))) where
  induction_fuel : (fuel : ℕ) (b : List ℕ) → length b < fuel → P b (frames abi b)
  induction_fuel zero b lt = absurd (omega arith)
  induction_fuel (suc fuel) b lt = elim (dec_lt (length b) header_size) [
    | yes h ↦ rw (frames-short abi b h) (short b h)
    | no long ↦ elim (dec_lt (length b) (frame_size abi b)) [
      | yes h ↦ rw (frames-partial abi b (omega arith) h) (part b (omega arith) h)
      | no whole ↦ elim (ℕ_discrete (read_header abi b).version protocol_version) [
        | yes v ↦ rw (frames-next abi b (omega arith) (omega arith) v) (
            next b (omega arith) (omega arith) v (
              induction_fuel fuel (drop (frame_size abi b) b)
                (omega (arith, length-drop (frame_size abi b) b))))
        | no v ↦
            rw (frames-broken abi b (omega arith) (omega arith) v)
              (bad b (omega arith) (omega arith) v)
      ]
    ]
  ]

  pub frames_induction : (b : List ℕ) → P b (frames abi b)
  frames_induction b = induction_fuel (suc (length b)) b (omega arith)
