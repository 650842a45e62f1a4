-- ===== src/Client/Requests.antt =====
-- The memory of a client over whole runs: the requests and the read buffers of src/client.cpp.
use libuv_net.Base.{
  ℕ, suc, ◌+◌, ◌≡◌, refl, true, false, List, [], ◌∷◌, Option, none, some, foldl, arith,
}
use libuv_net.Base.Outcome.{returns, Holds, Holds-bind, Holds-of_returns}
use libuv_net.Uv.{
  Uv, Status, done, error, Event, requests_made, requests_deleted, requests_accepted, buffers_made,
  buffers_deleted, is_inert, is_inert_lem,
}
use libuv_net.Client.Defs.{
  Call, calls_send, calls_connect, calls_disconnect, Handler, Link, Client, emit, new, run_call,
  stop, on_alloc, on_write, start_heartbeat,
}
use libuv_net.Client.Callbacks.{notify, reading, on_connect, on_close}
use libuv_net.Client.Lifecycle.{
  Input, alloc, connected, read, written, closed, timer, send_value, stopped, api, Setup, set_up,
  step, run,
}
use libuv_net.Client.Keeps.{run_calls-keeps, inner-keeps, is_inner}

-- What libuv has called back: connections and writes that have ended, buffers asked for.
module _ {V : Type 0} where
  abbrev pub ended : ℕ → Input V → ℕ
  ended n (connected status) = suc n
  ended n (written status) = suc n
  ended n _ = n

  abbrev pub asked : ℕ → Input V → ℕ
  asked n (alloc size) = suc n
  asked n _ = n

-- After `k` requests that have ended and `a` buffers asked for.
pub record IsAccounted {V : Type 0} (uv : Uv) (k a : ℕ) (l : Link V) : Type 0 where
  pub requests :
      requests_made l.history + k ≡ requests_deleted l.history + requests_accepted uv l.history
  pub made : buffers_made l.history ≡ a
  pub deleted : buffers_deleted l.history ≡ 0

module _ {V : Type 0} (uv : Uv) (k a : ℕ) where
  emit-IsAccounted :
      (e : Event) (l : Link V)
      → is_inert e ≡ true
      → IsAccounted uv k a l
      → IsAccounted uv k a (emit e l)
  emit-IsAccounted e l inert h =
      let (m, d, w, n, x) = is_inert_lem uv e l.history inert in
      record {
        requests = ground (arith, m, d, w, h.requests);
        made = ground (arith, n, h.made);
        deleted = ground (arith, x, h.deleted);
      }

  run_call-IsAccounted :
      (x : Call) (l : Link V) → IsAccounted uv k a l → IsAccounted uv k a (run_call uv x l)
  unfolding run_call
  run_call-IsAccounted (calls_send p) l h = ground arith
  run_call-IsAccounted (calls_connect host port) l h = ground arith
  run_call-IsAccounted calls_disconnect l h = ground arith

  notify-IsAccounted :
      (o : Option Handler) (event : ℕ → Event) (l : Link V)
      → ((n : ℕ) → is_inert (event n) ≡ true)
      → IsAccounted uv k a l
      → IsAccounted uv k a (notify uv o event l)
  unfolding notify
  notify-IsAccounted none event l inert h = h
  notify-IsAccounted (some x) event l inert h =
      run_calls-keeps uv (IsAccounted uv k a) emit-IsAccounted run_call-IsAccounted x.react _
        (emit-IsAccounted (event x.name) l (inert x.name) h)

  reading-IsAccounted :
      (status : Status) (l : Link V)
      → IsAccounted uv k a l
      → IsAccounted uv k a (reading uv status l)
  unfolding reading
  reading-IsAccounted (error code) l h = ground arith
  reading-IsAccounted done l h =
      notify-IsAccounted l.connect_handler Event.call_connect
        (start_heartbeat uv (record l { is_connected = true; is_connecting = false })) (λ n. refl)
        (record { requests = h.requests; made = h.made; deleted = h.deleted })

  on_close-IsAccounted : (l : Link V) → IsAccounted uv k a l → IsAccounted uv k a (on_close uv l)
  unfolding on_close
  on_close-IsAccounted l h =
      notify-IsAccounted l.disconnect_handler Event.call_close _ (λ n. refl)
        (record { requests = h.requests; made = h.made; deleted = h.deleted })

  stop-IsAccounted : (l : Link V) → IsAccounted uv k a l → IsAccounted uv k a (stop l)
  unfolding stop
  stop-IsAccounted l h = ground arith

  inner-IsAccounted :
      (s : Client V) (i : Input V)
      → is_inner i ≡ true
      → IsAccounted uv k a s.link
      → Holds (λ t. IsAccounted uv k a t.link) (step uv s i)
  inner-IsAccounted = inner-keeps uv (IsAccounted uv k a) emit-IsAccounted run_call-IsAccounted

module _ {V : Type 0} (uv : Uv) where
  delete-IsAccounted :
      (k a : ℕ) (l : Link V)
      → IsAccounted uv k a l
      → IsAccounted uv (suc k) a (emit Event.delete_request l)
  delete-IsAccounted k a l h = ground arith

  on_connect-IsAccounted :
      (k a : ℕ) (status : Status) (l : Link V)
      → IsAccounted uv k a l
      → IsAccounted uv (suc k) a (on_connect uv status l)
  unfolding on_connect
  on_connect-IsAccounted k a (error code) l h = ground arith
  on_connect-IsAccounted k a done l h =
      reading-IsAccounted uv (suc k) a _ _
        (emit-IsAccounted uv (suc k) a Event.read_start _ refl (delete-IsAccounted k a l h))

  step-IsAccounted :
      (k a : ℕ) (s : Client V) (i : Input V)
      → IsAccounted uv k a s.link
      → Holds (λ t. IsAccounted uv (ended k i) (asked a i) t.link) (step uv s i)
  unfolding step on_alloc on_write run_call
  step-IsAccounted k a s (alloc size) h = ground arith
  step-IsAccounted k a s (connected status) h = on_connect-IsAccounted k a status s.link h
  step-IsAccounted k a s (written done) h = delete-IsAccounted k a s.link h
  step-IsAccounted k a s (written (error code)) h =
      run_call-IsAccounted uv (suc k) a calls_disconnect _ (delete-IsAccounted k a s.link h)
  step-IsAccounted k a s closed h = on_close-IsAccounted uv k a s.link h
  step-IsAccounted k a s stopped h = stop-IsAccounted uv k a s.link h
  step-IsAccounted k a s (read incoming) h = inner-IsAccounted uv k a s (read incoming) refl h
  step-IsAccounted k a s timer h = inner-IsAccounted uv k a s timer refl h
  step-IsAccounted k a s (send_value type v) h =
      inner-IsAccounted uv k a s (send_value type v) refl h
  step-IsAccounted k a s (api x) h = inner-IsAccounted uv k a s (api x) refl h

  run-IsAccounted :
      (k a : ℕ) (s : Client V) (is : List (Input V))
      → IsAccounted uv k a s.link
      → Holds (λ t. IsAccounted uv (foldl ended k is) (foldl asked a is) t.link) (run uv s is)
  run-IsAccounted k a s [] h = h
  run-IsAccounted k a s (i ∷ is) h =
      Holds-bind (λ t. IsAccounted uv (ended k i) (asked a i) t.link) _ (step uv s i) _
        (step-IsAccounted k a s i h) (λ t g. run-IsAccounted (ended k i) (asked a i) t is g)

  -- The memory of a client from its constructor on, whatever handlers and interceptors it is given,
  -- whatever happens to it and whatever calls its handlers make: the requests made and the connections and
  -- writes that have ended are together as many as the requests deleted and those that libuv took on;
  -- there is a read buffer for each that libuv asks for, and none is ever deleted.
  pub client_memory_run :
      (s t : Client V) (x : Setup V) (is : List (Input V))
      → new V true [] ≡ returns s
      → run uv (set_up x s) is ≡ returns t
      → (requests_made t.history + foldl ended 0 is
          ≡ requests_deleted t.history + requests_accepted uv t.history)
        × (buffers_made t.history ≡ foldl asked 0 is)
        × (buffers_deleted t.history ≡ 0)
  unfolding new
  client_memory_run s t x is made e =
      let first =
        Holds-of_returns (λ u. IsAccounted uv 0 0 u.link) (new V true [])
          (record { requests = refl; made = refl; deleted = refl }) made in
      let h =
        Holds-of_returns (λ u. IsAccounted uv (foldl ended 0 is) (foldl asked 0 is) u.link)
          (run uv (set_up x s) is)
          (run-IsAccounted 0 0 (set_up x s) is
            (record { requests = first.requests; made = first.made; deleted = first.deleted }))
          e in
      (h.requests, h.made, h.deleted)
