-- ===== src/Client/Steps.antt =====
-- A property of a client that its small steps keep, with those on memory and on the connection, and
-- with it every callback and call of src/client.cpp.
use libuv_net.Base.{◌≡◌, refl, Bool, true, List, [], ◌∷◌, All}
use libuv_net.Base.Outcome.{Holds, Holds-bind}
use libuv_net.Uv.{Uv, Status, done, error, Event, is_plain, is_plain-is_inert}
use libuv_net.Client.Defs.{
  Call, calls_disconnect, Link, Client, emit, on_write, on_alloc, stop, run_call,
}
use libuv_net.Client.Callbacks.{on_close, on_connect}
use libuv_net.Client.Lifecycle.{
  Input, alloc, connected, read, written, closed, timer, send_value, stopped, api, step, run,
}
use libuv_net.Client.Keeps.{is_inner, inner-keeps}

-- `allowed` picks the inputs that may come; what is asked of them is that they keep `P`.
module _ {V : Type 0} (uv : Uv) (P : Link V → Type 0)
    (emits : (e : Event) (l : Link V) → is_plain e ≡ true → P l → P (emit e l))
    (called : (x : Call) (l : Link V) → P l → P (run_call uv x l)) (allowed : Input V → Bool)
    (connects : (status : Status) (l : Link V)
      → allowed (connected status) ≡ true
      → P l
      → P (on_connect uv status l))
    (closes : (l : Link V) → P l → P (on_close uv l))
    (stops : (l : Link V) → P l → P (stop l)) where
  inner_step-keeps :
      (s : Client V) (i : Input V)
      → is_inner i ≡ true
      → P s.link
      → Holds (λ t. P t.link) (step uv s i)
  inner_step-keeps = inner-keeps uv P (λ e l h k. emits e l (is_plain-is_inert e h) k) called

  pub step-keeps :
      (s : Client V) (i : Input V)
      → allowed i ≡ true
      → P s.link
      → Holds (λ t. P t.link) (step uv s i)
  unfolding step on_write on_alloc run_call
  step-keeps s (alloc size) ok k = emits (Event.new_buffer size) s.link refl k
  step-keeps s (connected status) ok k = connects status s.link ok k
  step-keeps s (read incoming) ok k = inner_step-keeps s (read incoming) refl k
  step-keeps s (written done) ok k = emits Event.delete_request s.link refl k
  step-keeps s (written (error code)) ok k =
      called calls_disconnect _ (emits Event.delete_request s.link refl k)
  step-keeps s closed ok k = closes s.link k
  step-keeps s timer ok k = inner_step-keeps s timer refl k
  step-keeps s (send_value type v) ok k = inner_step-keeps s (send_value type v) refl k
  step-keeps s stopped ok k = stops s.link k
  step-keeps s (api x) ok k = inner_step-keeps s (api x) refl k

  pub run-keeps :
      (s : Client V) (is : List (Input V))
      → All (λ i. allowed i ≡ true) is
      → P s.link
      → Holds (λ t. P t.link) (run uv s is)
  run-keeps s [] ok k = k
  run-keeps s (i ∷ is) ok k =
      Holds-bind (λ t. P t.link) (λ t. P t.link) (step uv s i) _ (step-keeps s i ok.0 k)
        (λ t h. run-keeps t is ok.1 h)
