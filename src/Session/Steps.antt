-- ===== src/Session/Steps.antt =====
-- A property of a connection that its small steps keep, with those on memory, and with it every
-- callback and call of src/session.cpp.
use libuv_net.Base.{ℕ, ◌≡◌, refl, Bool, true, List, [], ◌∷◌, Option, none, some}
use libuv_net.Base.Outcome.{Holds, Holds-bind}
use libuv_net.Uv.{
  Uv, done, error, Incoming, failed, received, Event, is_plain, is_inert, is_plain-is_inert,
}
use libuv_net.Session.Defs.{Call, calls_close, Conn, Session, emit, on_write, on_alloc, run_call}
use libuv_net.Session.Receive.{on_read}
use libuv_net.Session.Lifecycle.{
  Input, alloc, read, written, closed, timer, started, send_value, api, step, run,
}
use libuv_net.Session.Keeps.{is_inner, inner-keeps, read-keeps}

module _ {V : Type 0} (uv : Uv) (P : Conn V → Type 0)
    (emits : (e : Event) (c : Conn V) → is_plain e ≡ true → P c → P (emit e c))
    (sets : (n : ℕ) (b : Bool) (c : Conn V)
      → P c
      → P (record c { last_heartbeat = n; timer_active = b }))
    (called : (x : Call) (c : Conn V) → P c → P (run_call uv x c)) where
  inert_emits : (e : Event) (c : Conn V) → is_inert e ≡ true → P c → P (emit e c)
  inert_emits e c h k = emits e c (is_plain-is_inert e h) k

  inner_step-keeps :
      (s : Session V) (i : Input V)
      → is_inner i ≡ true
      → P s.conn
      → Holds (λ t. P t.conn) (step uv s i)
  inner_step-keeps = inner-keeps uv P inert_emits sets called

  alloc_with-keeps :
      (o : Option ℕ) (size : ℕ) (c : Conn V)
      → P c
      → P (elim o [
        | some h ↦ emit (Event.call_alloc h size) c
        | none ↦ emit (Event.new_buffer size) c
      ])
  alloc_with-keeps none size c k = emits (Event.new_buffer size) c refl k
  alloc_with-keeps (some h) size c k = emits (Event.call_alloc h size) c refl k

  on_read-keeps : (i : Incoming) (s : Session V) → P s.conn → Holds (λ t. P t.conn) (on_read uv i s)
  unfolding on_read run_call
  on_read-keeps (failed code) s k = called calls_close s.conn k
  on_read-keeps (received []) s k = k
  on_read-keeps (received (b ∷ bytes)) s k =
      Holds-bind (λ t. P t.conn) (λ t. P t.conn) _ _
        (read-keeps uv P inert_emits sets called s.read_handler (b ∷ bytes) s k)
        (λ t h. emits Event.delete_buffer t.conn refl h)

  pub step-keeps : (s : Session V) (i : Input V) → P s.conn → Holds (λ t. P t.conn) (step uv s i)
  unfolding step on_alloc on_write run_call
  step-keeps s (alloc size) k = alloc_with-keeps s.alloc_callback size s.conn k
  step-keeps s (read incoming) k = on_read-keeps incoming s k
  step-keeps s (written done) k = emits Event.delete_request s.conn refl k
  step-keeps s (written (error code)) k =
      called calls_close _ (emits Event.delete_request s.conn refl k)
  step-keeps s closed k = inner_step-keeps s closed refl k
  step-keeps s timer k = inner_step-keeps s timer refl k
  step-keeps s started k = inner_step-keeps s started refl k
  step-keeps s (send_value type v) k = inner_step-keeps s (send_value type v) refl k
  step-keeps s (api x) k = inner_step-keeps s (api x) refl k

  pub run-keeps :
      (s : Session V) (is : List (Input V)) → P s.conn → Holds (λ t. P t.conn) (run uv s is)
  run-keeps s [] k = k
  run-keeps s (i ∷ is) k =
      Holds-bind (λ t. P t.conn) (λ t. P t.conn) (step uv s i) _ (step-keeps s i k)
        (λ t h. run-keeps t is h)
