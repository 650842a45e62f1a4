-- ===== src/Client/Refinement.antt =====
-- The read loop of src/client.cpp, `append_to_buffer`, against the split of `Framing`.
use libuv_net.Base.{ℕ, suc, ◌<◌, ◌≤◌, ◌≡◌, List, [], ◌++◌, length, take, All, arith}
use libuv_net.Base.Outcome.{Outcome, returns, ◌>>=◌, foldm}
use libuv_net.Packet.{Abi, Packet, empty_packet, header_size, IsByte, serialize}
use libuv_net.Packet.Header.{IsByteAbi, read_header-length_lt}
use libuv_net.Packet.RoundTrip.{IsWire}
use libuv_net.Packet.Cases.{deserialize-of_Accepts, deserialize-of_version}
use libuv_net.Framing.{frame_size, frames}
use libuv_net.Framing.Stream.{stream}
use libuv_net.Framing.Loop.{run_frames, Rounds, loop-frames}
use libuv_net.Framing.Chunks.{join, feed}
use libuv_net.Framing.Chunks
use libuv_net.Uv.{Uv}
use libuv_net.Client.Defs.{Link, Client}
use libuv_net.Client.Receive.{message_size, handle_packet, receive_loop, append_to_buffer}

message_size-eq :
    (abi : Abi) (buffer : List ℕ)
    → All IsByte buffer
    → header_size ≤ length buffer
    → message_size abi buffer ≡ frame_size abi buffer
unfolding message_size
message_size-eq abi buffer bytes long = omega (arith, read_header-length_lt abi buffer bytes)

abbrev pub client : {V : Type 0} → Link V → List ℕ → Client V
client c b = record { link = c; buffer = b }

module _ {V : Type 0} (uv : Uv) where
  abbrev pub handle : Link V → Packet → Outcome (Link V)
  handle c p = handle_packet uv p c

  receive_loop-Rounds : Rounds client handle uv.abi (receive_loop uv)
  unfolding receive_loop
  receive_loop-Rounds = record {
    short = λ fuel c b h. ground arith;
    part = λ fuel c b bytes h k. ground (arith, message_size-eq uv.abi b bytes h);
    bad = λ fuel c b bytes h k v. ground (
      arith,
      message_size-eq uv.abi b bytes h,
      deserialize-of_version uv.abi empty_packet b (frame_size uv.abi b) v,
    );
    next = λ fuel c b bytes h k v. ground (
      arith,
      message_size-eq uv.abi b bytes h,
      deserialize-of_Accepts uv.abi empty_packet b (frame_size uv.abi b)
          (record { long = omega arith; version = v; whole = omega arith }),
    );
  }

  -- Whatever bytes come in, the loop ends: it hands the packets of the buffer's split to their
  -- handlers in order, until an interceptor or a handler throws, and keeps the rest.
  pub append_to_buffer-frames :
      (chunk : List ℕ) (c : Link V) (b : List ℕ)
      → All IsByte (b ++ chunk)
      → append_to_buffer uv chunk (client c b)
        ≡ run_frames client handle c (frames uv.abi (b ++ chunk))
  unfolding append_to_buffer
  append_to_buffer-frames chunk c b bytes =
      loop-frames client handle uv.abi (receive_loop uv) receive_loop-Rounds
        (suc (length (b ++ chunk))) c (b ++ chunk) (omega arith) bytes

  -- If the reads together bring the images of some packets, whose fields fit the wire, and a part
  -- of the image of one more, then however they are cut the whole packets are handled once each, in
  -- the order they were sent, until one throws, and the rest waits in the buffer.
  pub client-feed-stream :
      (chunks : List (List ℕ)) (c : Link V) (ps : List Packet) (q : Packet) (n : ℕ)
      → IsByteAbi uv.abi
      → All IsWire ps
      → IsWire q
      → n < length (serialize uv.abi q)
      → join chunks ≡ stream uv.abi ps ++ take n (serialize uv.abi q)
      → feed (append_to_buffer uv) (client c []) chunks
        ≡ (foldm handle c ps >>= λ d. returns (client d (take n (serialize uv.abi q))))
  client-feed-stream =
      Chunks.feed-stream client handle uv.abi (append_to_buffer uv) append_to_buffer-frames
