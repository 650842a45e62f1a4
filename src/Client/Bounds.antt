-- ===== src/Client/Bounds.antt =====
-- The receive buffer of src/client.cpp over whole runs.
use libuv_net.Base.{
  ℕ, ◌+◌, ◌^◌, ◌<◌, ◌≡◌, true, List, [], ◌∷◌, ◌++◌, length, All, All-append, inl, arith,
}
use libuv_net.Base.Outcome.{
  Outcome, returns, throws, stuck, ◌>>=◌, foldm, Holds, Holds-bind, Holds-of_returns,
}
use libuv_net.Packet.{header_size, IsByte}
use libuv_net.Framing.{frames}
use libuv_net.Framing.Waiting.{IsWaiting, rest-IsWaiting, length-IsWaiting}
use libuv_net.Uv.{Uv, failed, received, Event}
use libuv_net.Client.Defs.{Link, Client, new, send_data}
use libuv_net.Client.Receive.{append_to_buffer, on_read}
use libuv_net.Client.Refinement.{client, handle, append_to_buffer-frames}
use libuv_net.Client.Lifecycle.{
  Input, alloc, connected, read, written, closed, timer, send_value, stopped, api, Setup, set_up,
  step, run,
}
use libuv_net.Client.Total.{IsGood}

module _ {V : Type 0} (uv : Uv) where
  abbrev Waits : Client V → Type 0
  Waits s = IsWaiting uv.abi s.buffer

  handled-Waits :
      (o : Outcome (Link V)) (b : List ℕ)
      → IsWaiting uv.abi b
      → Holds Waits (o >>= λ d. returns (client d b))
  handled-Waits (returns d) b h = h
  handled-Waits throws b h = tt
  handled-Waits stuck b h = tt

  append_to_buffer-Waits :
      (bytes : List ℕ) (s : Client V)
      → Waits s
      → All IsByte bytes
      → Holds Waits (append_to_buffer uv bytes s)
  append_to_buffer-Waits bytes s h new =
      let all = All-append IsByte s.buffer bytes h.bytes new in
      let fr = frames uv.abi (s.buffer ++ bytes) in
      rw (append_to_buffer-frames uv bytes s.link s.buffer all) (
        handled-Waits (foldm (handle uv) s.link fr.packets) fr.rest
          (rest-IsWaiting uv.abi (s.buffer ++ bytes) all))

  step-Waits : (s : Client V) (i : Input V) → Waits s → IsGood i → Holds Waits (step uv s i)
  unfolding step on_read
  step-Waits s (read (received (b ∷ bytes))) h good = append_to_buffer-Waits (b ∷ bytes) s h good
  step-Waits s (read (received [])) h good = h
  step-Waits s (read (failed code)) h good = h
  step-Waits s (send_value type v) h good = handled-Waits (send_data uv type v s.link) s.buffer h
  step-Waits s (alloc size) h good = h
  step-Waits s (connected status) h good = h
  step-Waits s (written status) h good = h
  step-Waits s closed h good = h
  step-Waits s timer h good = h
  step-Waits s stopped h good = h
  step-Waits s (api x) h good = h

  run-Waits :
      (s : Client V) (is : List (Input V)) → Waits s → All IsGood is → Holds Waits (run uv s is)
  run-Waits s [] h good = h
  run-Waits s (i ∷ is) h good =
      Holds-bind Waits Waits (step uv s i) _ (step-Waits s i h good.0)
        (λ t k. run-Waits t is k good.1)

  -- After every run of a new client that ends without an exception, whatever handlers and
  -- interceptors it was given, where what came in were bytes, connected again or not: the receive
  -- buffer is too short for a header or for the frame that the header announces; so it is shorter
  -- than a header and 2 ^ 32 bytes.
  pub client_buffer_bounds :
      (history : List Event) (s t : Client V) (x : Setup V) (is : List (Input V))
      → new V true history ≡ returns s
      → All IsGood is
      → run uv (set_up x s) is ≡ returns t
      → IsWaiting uv.abi t.buffer × (length t.buffer < header_size + 2 ^ 32)
  unfolding new
  client_buffer_bounds history s t x is made good e =
      let first =
        Holds-of_returns Waits (new V true history)
          (record { bytes = tt; short = inl (omega arith) }) made in
      let h =
        Holds-of_returns Waits (run uv (set_up x s) is) (run-Waits (set_up x s) is first good) e in
      (h, length-IsWaiting uv.abi t.buffer h)
