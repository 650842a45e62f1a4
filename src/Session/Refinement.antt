-- ===== src/Session/Refinement.antt =====
-- The read loop of src/session.cpp, `process_buffer`, against the split of `Framing`.
use libuv_net.Base.{
  ℕ, refl, suc, ◌<◌, ◌≤◌, ◌≡◌, false, List, [], ◌∷◌, ◌++◌, length, take, All, arith,
}
use libuv_net.Base.Outcome.{Outcome, returns, ◌>>=◌, foldm}
use libuv_net.Packet.{Abi, Packet, empty_packet, header_size, IsByte, serialize}
use libuv_net.Packet.Header.{IsByteAbi, read_header-length_lt}
use libuv_net.Packet.RoundTrip.{IsWire}
use libuv_net.Packet.Cases.{deserialize-of_Accepts, deserialize-of_version}
use libuv_net.Framing.{frame_size, frames}
use libuv_net.Framing.Stream.{stream}
use libuv_net.Framing.Loop.{run_frames, Rounds, loop-frames}
use libuv_net.Framing.Chunks.{join, feed}
use libuv_net.Framing.Chunks
use libuv_net.Uv.{Uv}
use libuv_net.Session.Defs.{Conn, Session}
use libuv_net.Session.Receive.{
  is_empty, message_size, handle_packet, process_loop, process_buffer, append_to_buffer,
}

message_size-eq :
    (abi : Abi) (buffer : List ℕ)
    → All IsByte buffer
    → header_size ≤ length buffer
    → message_size abi buffer ≡ frame_size abi buffer
unfolding message_size
message_size-eq abi buffer bytes long = omega (arith, read_header-length_lt abi buffer bytes)

not-is_empty : {A : Type 0} (xs : List A) → 0 < length xs → is_empty xs ≡ false
not-is_empty [] h = absurd (omega arith)
not-is_empty (x ∷ xs) h = refl

abbrev pub session : {V : Type 0} → Conn V → List ℕ → Session V
session c b = record { conn = c; read_buffer = b }

module _ {V : Type 0} (uv : Uv) where
  abbrev pub handle : Conn V → Packet → Outcome (Conn V)
  handle c p = handle_packet uv p c

  process_loop-Rounds : Rounds session handle uv.abi (process_loop uv)
  unfolding process_loop
  process_loop-Rounds = record {
    short = λ fuel c b h. ground arith;
    part = λ fuel c b bytes h k. ground (arith, message_size-eq uv.abi b bytes h);
    bad = λ fuel c b bytes h k v. ground (
      arith,
      message_size-eq uv.abi b bytes h,
      not-is_empty b,
      deserialize-of_version uv.abi empty_packet b (frame_size uv.abi b) v,
    );
    next = λ fuel c b bytes h k v. ground (
      arith,
      message_size-eq uv.abi b bytes h,
      not-is_empty b,
      deserialize-of_Accepts uv.abi empty_packet b (frame_size uv.abi b)
          (record { long = omega arith; version = v; whole = omega arith }),
    );
  }

  -- Whatever bytes stand in the buffer, the loop ends: it hands the packets of the buffer's split
  -- to `handle_packet` in order, until one throws, and keeps the rest.
  pub process_buffer-frames :
      (s : Session V)
      → All IsByte s.read_buffer
      → process_buffer uv s ≡ run_frames session handle s.conn (frames uv.abi s.read_buffer)
  unfolding process_buffer
  process_buffer-frames s bytes =
      loop-frames session handle uv.abi (process_loop uv) process_loop-Rounds
        (suc (length s.read_buffer)) s.conn s.read_buffer (omega arith) bytes

  pub receives :
      (chunk : List ℕ) (c : Conn V) (b : List ℕ)
      → All IsByte (b ++ chunk)
      → append_to_buffer uv chunk (session c b)
        ≡ run_frames session handle c (frames uv.abi (b ++ chunk))
  unfolding append_to_buffer
  receives chunk c b bytes = process_buffer-frames (session c (b ++ chunk)) bytes

  -- If the reads together bring the images of some packets, whose fields fit the wire, and a part
  -- of the image of one more, then however they are cut the whole packets are handled once each, in
  -- the order they were sent, until one throws, and the rest waits in the buffer.
  pub session-feed-stream :
      (chunks : List (List ℕ)) (c : Conn V) (ps : List Packet) (q : Packet) (n : ℕ)
      → IsByteAbi uv.abi
      → All IsWire ps
      → IsWire q
      → n < length (serialize uv.abi q)
      → join chunks ≡ stream uv.abi ps ++ take n (serialize uv.abi q)
      → feed (append_to_buffer uv) (session c []) chunks
        ≡ (foldm handle c ps >>= λ d. returns (session d (take n (serialize uv.abi q))))
  session-feed-stream = Chunks.feed-stream session handle uv.abi (append_to_buffer uv) receives
