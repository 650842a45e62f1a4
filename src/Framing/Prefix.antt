-- ===== src/Framing/Prefix.antt =====
-- What is known of a split (`Framing`) from the split of a longer buffer, and of the rest.
use libuv_net.Base.{
  ℕ, ◌≡◌, true, false, List, [], ◌++◌, length-append, arith, Bool-cases, inl, inr, All, All-drop,
}
use libuv_net.Packet.{Abi, IsByte}
use libuv_net.Packet.Header.{read_header-append}
use libuv_net.Framing.{
  partial, frames, frames-short, frames-partial, frames-broken, frames_induction,
}
use libuv_net.Framing.Stream.{frames-append_next}

-- The rest of a sound split is no whole frame.
pub frames-rest :
    (abi : Abi) (buffer : List ℕ)
    → frames abi (frames abi buffer).rest ≡ partial (frames abi buffer).rest
frames-rest abi =
    frames_induction abi (λ b fr. frames abi fr.rest ≡ partial fr.rest)
      (λ b h. frames-short abi b h) (λ b h k. frames-partial abi b h k)
      (λ b h k v. frames-short abi [] (omega arith)) (λ b h k v ih. ih)

pub All-rest :
    (abi : Abi) (buffer : List ℕ) → All IsByte buffer → All IsByte (frames abi buffer).rest
All-rest abi =
    frames_induction abi (λ b fr. All IsByte b → All IsByte fr.rest) (λ b h bytes. bytes)
      (λ b h k bytes. bytes) (λ b h k v bytes. tt)
      (λ b h k v ih bytes. ih (All-drop IsByte _ b bytes))

broken-append :
    (abi : Abi) (more buffer : List ℕ)
    → (frames abi buffer).sound ≡ false
    → (frames abi (buffer ++ more)).sound ≡ false
broken-append abi more =
    frames_induction abi (λ b fr. fr.sound ≡ false → (frames abi (b ++ more)).sound ≡ false)
      (λ b h e. cc) (λ b h k e. cc)
      (λ b h k v e. cc (
        frames-broken abi (b ++ more) (omega (arith, length-append b more))
          (rw (read_header-append abi b more h) (omega (arith, length-append b more)))
          (rw (read_header-append abi b more h) v)))
      (λ b h k v ih e. rw (frames-append_next abi b more h k v) (ih e))

pub sound_prefix :
    (abi : Abi) (buffer more : List ℕ)
    → (frames abi (buffer ++ more)).sound ≡ true
    → (frames abi buffer).sound ≡ true
sound_prefix abi buffer more h = elim (Bool-cases (frames abi buffer).sound) [
  | inl e ↦ e
  | inr e ↦ cc (h, broken-append abi more buffer e)
]
