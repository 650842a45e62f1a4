-- ===== src/Session/Buffers.antt =====
-- What the read buffer of src/session.cpp keeps: a property of bytes that holds of the rest of
-- every split into frames.
use libuv_net.Base.{ℕ, List, [], ◌∷◌, ◌++◌, Option, none, some, All, All-append}
use libuv_net.Base.Outcome.{Outcome, returns, throws, stuck, ◌>>=◌, foldm, Holds, Holds-bind, any}
use libuv_net.Packet.{IsByte}
use libuv_net.Framing.{frames}
use libuv_net.Uv.{Uv, failed, received, Event}
use libuv_net.Session.Defs.{Conn, Session, ReadHandler, emit, on_conn, run_calls, send_data}
use libuv_net.Session.Receive.{append_to_buffer, on_read}
use libuv_net.Session.Refinement.{session, handle, receives}
use libuv_net.Session.Lifecycle.{
  Input, alloc, read, written, closed, timer, started, send_value, api, step,
}
use libuv_net.Session.Total.{IsGood}

module _ {V : Type 0} (uv : Uv) (Q : List ℕ → Type 0)
    (are_bytes : (b : List ℕ) → Q b → All IsByte b)
    (rests : (b : List ℕ) → All IsByte b → Q (frames uv.abi b).rest) where
  abbrev Waits : Session V → Type 0
  Waits s = Q s.read_buffer

  handled-Waits :
      (o : Outcome (Conn V)) (b : List ℕ) → Q b → Holds Waits (o >>= λ d. returns (session d b))
  handled-Waits (returns d) b h = h
  handled-Waits throws b h = tt
  handled-Waits stuck b h = tt

  append_to_buffer-Waits :
      (bytes : List ℕ) (s : Session V)
      → Waits s
      → All IsByte bytes
      → Holds Waits (append_to_buffer uv bytes s)
  append_to_buffer-Waits bytes s h new =
      let all = All-append IsByte s.read_buffer bytes (are_bytes s.read_buffer h) new in
      let fr = frames uv.abi (s.read_buffer ++ bytes) in
      rw (receives uv bytes s.conn s.read_buffer all) (
        handled-Waits (foldm (handle uv) s.conn fr.packets) fr.rest
          (rests (s.read_buffer ++ bytes) all))

  read-Waits :
      (o : Option ReadHandler) (bytes : List ℕ) (s : Session V)
      → Waits s
      → All IsByte bytes
      → Holds Waits (elim o [
        | some h ↦ h.ends bytes >>= λ _.
            returns (
              on_conn (λ c. run_calls uv (h.react bytes) (emit (Event.call_read h.name bytes) c)) s)
        | none ↦ append_to_buffer uv bytes s
      ])
  read-Waits (some x) bytes s h new =
      Holds-bind (λ _. Unit {0}) Waits (x.ends bytes) _ (any (x.ends bytes)) (λ _ _. h)
  read-Waits none bytes s h new = append_to_buffer-Waits bytes s h new

  pub step-Waits : (s : Session V) (i : Input V) → Waits s → IsGood i → Holds Waits (step uv s i)
  unfolding step on_read
  step-Waits s (read (received (b ∷ bytes))) h good =
      Holds-bind Waits Waits _ _ (read-Waits s.read_handler (b ∷ bytes) s h good) (λ t k. k)
  step-Waits s (read (received [])) h good = h
  step-Waits s (read (failed code)) h good = h
  step-Waits s (send_value type v) h good =
      handled-Waits (send_data uv type v s.conn) s.read_buffer h
  step-Waits s (alloc size) h good = h
  step-Waits s (written status) h good = h
  step-Waits s closed h good = h
  step-Waits s timer h good = h
  step-Waits s started h good = h
  step-Waits s (api x) h good = h
