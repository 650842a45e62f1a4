-- ===== src/Framing/Stream.antt =====
-- The split of a stream: bytes that arrive later, and bytes that `serialize` of
-- include/libuv_net/message.hpp made.
use libuv_net.Base.{
  ℕ, ◌+◌, ◌≤◌, ◌<◌, ◌≡◌, refl, sym, ap, ◌∙◌, true, List, [], ◌∷◌, ◌++◌, length, take, drop,
  length-append, length-drop, drop-append_eq, drop-append_le, append_assoc, append-nil,
  take-append_le, arith, dec_lt, All, All-append, length-take_le, take-append-drop,
}
use libuv_net.Packet.{
  Abi, header_size, read_header, protocol_version, Packet, PacketHeader, header_of, IsByte,
  serialize,
}
use libuv_net.Packet.Header.{IsByteAbi, read_header-append}
use libuv_net.Packet.Cases.{packet_at}
use libuv_net.Packet.RoundTrip.{
  IsWire, All-serialize, length-serialize, read_header-serialize, payload-serialize,
}
use libuv_net.Framing.{
  Frames, push_frame, partial, frame_size, frames, frames-short, frames-partial, frames-next,
  frames_induction,
}

-- The packets of two splits in a row.
abbrev pub followed_by : Frames → Frames → Frames
followed_by a b = record b { packets = a.packets ++ b.packets }

module _ (abi : Abi) (buffer more : List ℕ) (long : header_size ≤ length buffer)
    (whole : frame_size abi buffer ≤ length buffer) where
  packet_at-append : packet_at abi (buffer ++ more) ≡ packet_at abi buffer
  packet_at-append =
      rw (read_header-append abi buffer more long, drop-append_le header_size buffer more long)
        (rw (
          take-append_le (read_header abi buffer).length (drop header_size buffer) more
            (omega (arith, length-drop header_size buffer))))

  -- Both streams begin with the same frame.
  pub frames-append_next :
      (read_header abi buffer).version ≡ protocol_version
      → frames abi (buffer ++ more)
        ≡ push_frame
            (packet_at abi buffer)
            (frames abi (drop (frame_size abi buffer) buffer ++ more))
  frames-append_next v =
      frames-next abi (buffer ++ more) (omega (arith, length-append buffer more))
        (rw (read_header-append abi buffer more long) (omega (arith, length-append buffer more)))
        (rw (read_header-append abi buffer more long) v)
      ∙ rw (
        packet_at-append,
        read_header-append abi buffer more long,
        drop-append_le (frame_size abi buffer) buffer more whole,
      )

-- Bytes that arrive later split as if they had been there at once, unless a header of another
-- version has made the buffer be thrown away.
pub frames-append :
    (abi : Abi) (more buffer : List ℕ)
    → (frames abi buffer).sound ≡ true
    → frames abi (buffer ++ more)
      ≡ followed_by (frames abi buffer) (frames abi ((frames abi buffer).rest ++ more))
frames-append abi more =
    frames_induction abi
      (λ b fr.
        fr.sound ≡ true → frames abi (b ++ more) ≡ followed_by fr (frames abi (fr.rest ++ more)))
      (λ b h ok. refl) (λ b h k ok. refl) (λ b h k v ok. cc)
      (λ b h k v ih ok.
        frames-append_next abi b more h k v ∙ ap (push_frame (packet_at abi b)) (ih ok))

abbrev pub stream : Abi → List Packet → List ℕ
stream abi [] = []
stream abi (p ∷ ps) = serialize abi p ++ stream abi ps

module _ (abi : Abi) (p : Packet) (rest : List ℕ) (wire : IsWire p) where
  pub frames-serialize : frames abi (serialize abi p ++ rest) ≡ push_frame p (frames abi rest)
  frames-serialize =
      let e = read_header-serialize abi p rest wire in
      frames-next abi (serialize abi p ++ rest)
        (omega (arith, length-append (serialize abi p) rest, length-serialize abi p))
        (rw e (omega (arith, length-append (serialize abi p) rest, length-serialize abi p))) (rw e)
      ∙ rw (
        e,
        payload-serialize abi p rest wire,
        drop-append_eq (header_size + length p.payload) (serialize abi p) rest
            (sym (length-serialize abi p)),
      )

-- A stream of serialised packets with a tail splits into those packets and what the tail splits into.
pub frames-stream :
    (abi : Abi) (ps : List Packet) (tail : List ℕ)
    → All IsWire ps
    → frames abi (stream abi ps ++ tail)
      ≡ record (frames abi tail) { packets = ps ++ (frames abi tail).packets }
frames-stream abi [] tail wire = refl
frames-stream abi (p ∷ ps) tail wire = rw append_assoc (
    frames-serialize abi p (stream abi ps ++ tail) wire.0
    ∙ ap (push_frame p) (frames-stream abi ps tail wire.1))

pub All-stream :
    (abi : Abi) → IsByteAbi abi → (ps : List Packet) → All IsWire ps → All IsByte (stream abi ps)
All-stream abi pads [] wires = tt
All-stream abi pads (p ∷ ps) wires =
    All-append IsByte (serialize abi p) (stream abi ps) (All-serialize abi pads p wires.0)
      (All-stream abi pads ps wires.1)

-- A packet that is not all there is left alone.
pub frames-prefix :
    (abi : Abi) (q : Packet) (n : ℕ)
    → IsWire q
    → n < length (serialize abi q)
    → frames abi (take n (serialize abi q)) ≡ partial (take n (serialize abi q))
frames-prefix abi q n wire inside = elim (dec_lt n header_size) [
  | yes short ↦ frames-short abi (take n whole) (omega (arith, n_bytes))
  | no long ↦ frames-partial abi (take n whole) (omega (arith, n_bytes)) (
      omega (
        arith,
        n_bytes,
        length-serialize abi q,
        ap (λ (h : PacketHeader). h.length) (same_header (omega arith)),
      ))
]
  where
    whole : List ℕ
    whole = serialize abi q

    n_bytes : length (take n whole) ≡ n
    n_bytes = length-take_le n whole (omega arith)

    same_header :
        header_size ≤ n
        → read_header abi (take n whole) ≡ record (header_of q) { length = length q.payload }
    same_header long =
        sym (read_header-append abi (take n whole) (drop n whole) (omega (arith, n_bytes)))
        ∙ rw (take-append-drop n whole) (rw append-nil at (read_header-serialize abi q [] wire))
