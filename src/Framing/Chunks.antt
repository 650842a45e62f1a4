-- ===== src/Framing/Chunks.antt =====
-- A receiver that handles the packets of its buffer at each read, and the places where the network
-- cuts the stream. Stands for src/session.cpp and src/client.cpp alike.
use libuv_net.Base.{
  ℕ, ◌<◌, ◌≡◌, sym, ap, ◌∙◌, true, List, [], ◌∷◌, ◌++◌, length, take, append_assoc, append-nil, All,
  All-append, All-append_left, All-append_right, All-take, arith,
}
use libuv_net.Base.Outcome.{Outcome, returns, ◌>>=◌, foldm, foldm-append, bind_congr, bind_assoc}
use libuv_net.Packet.{Abi, Packet, IsByte, serialize}
use libuv_net.Packet.Header.{IsByteAbi}
use libuv_net.Packet.RoundTrip.{IsWire, All-serialize}
use libuv_net.Framing.{Frames, partial, frames, frames-short}
use libuv_net.Framing.Stream.{
  followed_by, frames-append, stream, frames-stream, All-stream, frames-prefix,
}
use libuv_net.Framing.Prefix.{frames-rest, All-rest, sound_prefix}
use libuv_net.Framing.Loop.{run_frames}

abbrev pub join : List (List ℕ) → List ℕ
join [] = []
join (c ∷ cs) = c ++ join cs

-- The reads of one receiver, in order.
abbrev pub feed : {T : Type 0} → (List ℕ → T → Outcome T) → T → List (List ℕ) → Outcome T
feed receive = foldm (λ t chunk. receive chunk t)

module _ {C T : Type 0} (mk : C → List ℕ → T) (handle : C → Packet → Outcome C) (abi : Abi)
    (receive : List ℕ → T → Outcome T)
    (receives : (chunk : List ℕ) (c : C) (b : List ℕ)
      → All IsByte (b ++ chunk)
      → receive chunk (mk c b) ≡ run_frames mk handle c (frames abi (b ++ chunk))) where
  run_frames-followed_by :
      (c : C) (a b : Frames)
      → (foldm handle c a.packets >>= λ d. run_frames mk handle d b)
        ≡ run_frames mk handle c (followed_by a b)
  run_frames-followed_by c a b =
      sym (bind_assoc (foldm handle c a.packets) _ _)
      ∙ ap (λ m. m >>= λ d. returns (mk d b.rest)) (sym (foldm-append handle c a.packets b.packets))

  pub feed-frames :
      (chunks : List (List ℕ)) (c : C) (b : List ℕ)
      → frames abi b ≡ partial b
      → All IsByte (b ++ join chunks)
      → (frames abi (b ++ join chunks)).sound ≡ true
      → feed receive (mk c b) chunks ≡ run_frames mk handle c (frames abi (b ++ join chunks))
  feed-frames [] c b settled bytes ok = rw append-nil (rw settled)
  feed-frames (x ∷ xs) c b settled bytes ok =
      let all = rw (← append_assoc b x (join xs)) at bytes in
      let sound = rw (← append_assoc b x (join xs)) at ok in
      let now = All-append_left IsByte (b ++ x) (join xs) all in
      let first = frames abi (b ++ x) in
      let split =
        frames-append abi (join xs) (b ++ x) (sound_prefix abi (b ++ x) (join xs) sound) in
      ap (λ m. m >>= λ t. feed receive t xs) (receives x c b now)
      ∙ bind_assoc (foldm handle c first.packets) _ _
      ∙ bind_congr (foldm handle c first.packets) (λ d.
        feed-frames xs d first.rest (frames-rest abi (b ++ x))
          (All-append IsByte first.rest (join xs) (All-rest abi (b ++ x) now)
            (All-append_right IsByte (b ++ x) (join xs) all))
          (sym (ap (λ (r : Frames). r.sound) split) ∙ sound))
      ∙ run_frames-followed_by c first (frames abi (first.rest ++ join xs))
      ∙ ap (run_frames mk handle c) (sym split ∙ ap (frames abi) (append_assoc b x (join xs)))

  pub feed-stream :
      (chunks : List (List ℕ)) (c : C) (ps : List Packet) (q : Packet) (n : ℕ)
      → IsByteAbi abi
      → All IsWire ps
      → IsWire q
      → n < length (serialize abi q)
      → join chunks ≡ stream abi ps ++ take n (serialize abi q)
      → feed receive (mk c []) chunks
        ≡ (foldm handle c ps >>= λ d. returns (mk d (take n (serialize abi q))))
  feed-stream chunks c ps q n pads wires wire inside e =
      let tail = frames-prefix abi q n wire inside in
      let split = frames-stream abi ps (take n (serialize abi q)) wires in
      feed-frames chunks c [] (frames-short abi [] (omega arith))
        (rw e (
          All-append IsByte (stream abi ps) _ (All-stream abi pads ps wires)
            (All-take IsByte n _ (All-serialize abi pads q wire))))
        (rw (e, split, tail))
      ∙ rw (e, split, tail, append-nil)
