-- ===== src/Session/Bounds.antt =====
-- The read buffer of src/session.cpp over whole runs.
use libuv_net.Base.{ℕ, ◌+◌, ◌^◌, ◌<◌, ◌≡◌, List, [], ◌∷◌, length, All, inl, arith}
use libuv_net.Base.Outcome.{returns, Holds, Holds-bind, Holds-of_returns}
use libuv_net.Packet.{Abi, header_size}
use libuv_net.Framing.Waiting.{IsWaiting, rest-IsWaiting, length-IsWaiting}
use libuv_net.Uv.{Uv, Peer, inet, inet6, Event}
use libuv_net.Session.Defs.{Session, accept}
use libuv_net.Session.Lifecycle.{Input, Setup, set_up, step, run}
use libuv_net.Session.Total.{IsGood}
use libuv_net.Session.Buffers.{step-Waits}

accept-IsWaiting :
    (abi : Abi) (V : Type 0) (address : ℕ) (peer : Peer) (history : List Event)
    → IsWaiting abi (accept V address peer history).read_buffer
unfolding accept
accept-IsWaiting abi V address (inet a p) history = record { bytes = tt; short = inl (omega arith) }
accept-IsWaiting abi V address (inet6 a p) history = record {
  bytes = tt;
  short = inl (omega arith);
}

module _ {V : Type 0} (uv : Uv) where
  abbrev Waits : Session V → Type 0
  Waits s = IsWaiting uv.abi s.read_buffer

  run-Waits :
      (s : Session V) (is : List (Input V)) → Waits s → All IsGood is → Holds Waits (run uv s is)
  run-Waits s [] h good = h
  run-Waits s (i ∷ is) h good =
      Holds-bind Waits Waits (step uv s i) _
        (step-Waits uv (IsWaiting uv.abi) (λ b w. w.bytes) (rest-IsWaiting uv.abi) s i h good.0)
        (λ t k. run-Waits t is k good.1)

  -- After every run of an accepted session that ends without an exception, whatever handlers and
  -- interceptors it was given, where what came in were bytes: the read buffer is too short for a
  -- header or for the frame that the header announces; so it is shorter than a header and 2 ^ 32
  -- bytes.
  pub session_buffer_bounds :
      (address : ℕ) (peer : Peer) (history : List Event) (x : Setup V) (is : List (Input V))
      (t : Session V)
      → All IsGood is
      → run uv (set_up x (accept V address peer history)) is ≡ returns t
      → IsWaiting uv.abi t.read_buffer × (length t.read_buffer < header_size + 2 ^ 32)
  session_buffer_bounds address peer history x is t good e =
      let s = set_up x (accept V address peer history) in
      let h =
        Holds-of_returns Waits (run uv s is)
          (run-Waits s is (accept-IsWaiting uv.abi V address peer history) good) e in
      (h, length-IsWaiting uv.abi t.read_buffer h)
