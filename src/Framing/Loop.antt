-- ===== src/Framing/Loop.antt =====
-- A receive loop, of src/session.cpp or src/client.cpp, by what it does in each round with the front
-- of its buffer.
use libuv_net.Base.{
  ℕ, zero, suc, ◌≤◌, ◌<◌, ◌≡◌, ◌≢◌, sym, ◌∙◌, List, [], length, drop, All, All-drop, length-drop,
  dec_lt, ℕ_discrete, arith,
}
use libuv_net.Base.Outcome.{Outcome, returns, ◌>>=◌, foldm, bind_congr, bind_assoc}
use libuv_net.Packet.{Abi, Packet, header_size, read_header, protocol_version, IsByte}
use libuv_net.Packet.Cases.{packet_at}
use libuv_net.Framing.{
  Frames, frame_size, frames, frames-short, frames-partial, frames-broken, frames-next,
}

-- `C` is the state apart from the buffer, and `mk` puts the two together.
module _ {C T : Type 0} (mk : C → List ℕ → T) (handle : C → Packet → Outcome C) where
  abbrev pub run_frames : C → Frames → Outcome T
  run_frames c fr = foldm handle c fr.packets >>= λ d. returns (mk d fr.rest)

  -- What a round does, by the front of the buffer.
  pub record Rounds (abi : Abi) (loop : ℕ → T → Outcome T) : Type 0 where
    pub short :
        (fuel : ℕ) (c : C) (b : List ℕ)
        → length b < header_size
        → loop (suc fuel) (mk c b) ≡ returns (mk c b)
    pub part :
        (fuel : ℕ) (c : C) (b : List ℕ)
        → All IsByte b
        → header_size ≤ length b
        → length b < frame_size abi b
        → loop (suc fuel) (mk c b) ≡ returns (mk c b)
    pub bad :
        (fuel : ℕ) (c : C) (b : List ℕ)
        → All IsByte b
        → header_size ≤ length b
        → frame_size abi b ≤ length b
        → (read_header abi b).version ≢ protocol_version
        → loop (suc fuel) (mk c b) ≡ returns (mk c [])
    pub next :
        (fuel : ℕ) (c : C) (b : List ℕ)
        → All IsByte b
        → header_size ≤ length b
        → frame_size abi b ≤ length b
        → (read_header abi b).version ≡ protocol_version
        → loop (suc fuel) (mk c b)
          ≡ (handle c (packet_at abi b) >>= λ d. loop fuel (mk d (drop (frame_size abi b) b)))

  pub loop-frames :
      (abi : Abi) (loop : ℕ → T → Outcome T)
      → Rounds abi loop
      → (fuel : ℕ) (c : C) (b : List ℕ) → length b < fuel
      → All IsByte b
      → loop fuel (mk c b) ≡ run_frames c (frames abi b)
  loop-frames abi loop r zero c b lt bytes = absurd (omega arith)
  loop-frames abi loop r (suc fuel) c b lt bytes = elim (dec_lt (length b) header_size) [
    | yes short ↦ rw (frames-short abi b short) (r.short fuel c b short)
    | no long ↦ elim (dec_lt (length b) (frame_size abi b)) [
      | yes part ↦
          rw (frames-partial abi b (omega arith) part) (r.part fuel c b bytes (omega arith) part)
      | no whole ↦ elim (ℕ_discrete (read_header abi b).version protocol_version) [
        | yes v ↦ rw (frames-next abi b (omega arith) (omega arith) v) (
            r.next fuel c b bytes (omega arith) (omega arith) v
            ∙ bind_congr (handle c (packet_at abi b)) (λ d.
              loop-frames abi loop r fuel d (drop (frame_size abi b) b)
                (omega (arith, length-drop (frame_size abi b) b)) (All-drop IsByte _ b bytes))
            ∙ sym (bind_assoc (handle c (packet_at abi b)) _ _))
        | no v ↦
            rw (frames-broken abi b (omega arith) (omega arith) v)
              (r.bad fuel c b bytes (omega arith) (omega arith) v)
      ]
    ]
  ]
