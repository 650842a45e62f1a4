-- ===== src/Session/Requests.antt =====
-- The memory of a session over whole runs: the write requests and the read buffers of src/session.cpp.
use libuv_net.Base.{ℕ, suc, ◌+◌, ◌≡◌, refl, ap, true, List, [], ◌∷◌, foldl, none, arith}
use libuv_net.Base.Outcome.{returns, Holds, Holds-bind, Holds-of_returns}
use libuv_net.Uv.{
  Uv, Peer, inet, inet6, Status, done, error, received, failed, Event, requests_made,
  requests_deleted, requests_accepted, buffers_made, buffers_deleted, is_inert, is_inert_lem,
}
use libuv_net.Session.Defs.{
  Call, calls_send, calls_stop, calls_close, calls_server, calls_other, Conn, Session, emit, accept,
  run_call, on_alloc, on_write,
}
use libuv_net.Session.Receive.{on_read}
use libuv_net.Session.Lifecycle.{
  Input, alloc, read, written, closed, timer, started, send_value, api, Setup, set_up, step, run,
}
use libuv_net.Session.Keeps.{read-keeps, inner-keeps, is_inner}

-- What libuv has called back: writes that have ended, buffers asked for, reads that brought bytes.
module _ {V : Type 0} where
  abbrev pub ended : ℕ → Input V → ℕ
  ended n (written status) = suc n
  ended n _ = n

  abbrev pub asked : ℕ → Input V → ℕ
  asked n (alloc size) = suc n
  asked n _ = n

  abbrev pub filled : ℕ → Input V → ℕ
  filled n (read (received (b ∷ bytes))) = suc n
  filled n _ = n

-- After `k` writes that have ended, `a` buffers asked for and `f` reads with bytes, on a session that
-- allocates its buffers itself.
pub record IsAccounted {V : Type 0} (uv : Uv) (k a f : ℕ) (c : Conn V) : Type 0 where
  pub requests :
      requests_made c.history + k ≡ requests_deleted c.history + requests_accepted uv c.history
  pub made : buffers_made c.history ≡ a
  pub deleted : buffers_deleted c.history ≡ f
  pub own : c.alloc_callback ≡ none

module _ {V : Type 0} (uv : Uv) (k a f : ℕ) where
  emit-IsAccounted :
      (e : Event) (c : Conn V)
      → is_inert e ≡ true
      → IsAccounted uv k a f c
      → IsAccounted uv k a f (emit e c)
  emit-IsAccounted e c inert h =
      let (m, d, w, n, x) = is_inert_lem uv e c.history inert in
      record {
        requests = ground (arith, m, d, w, h.requests);
        made = ground (arith, n, h.made);
        deleted = ground (arith, x, h.deleted);
        own = h.own;
      }

  run_call-IsAccounted :
      (x : Call) (c : Conn V) → IsAccounted uv k a f c → IsAccounted uv k a f (run_call uv x c)
  unfolding run_call
  run_call-IsAccounted (calls_send p) c h = ground arith
  run_call-IsAccounted calls_stop c h = ground arith
  run_call-IsAccounted calls_close c h = ground arith
  run_call-IsAccounted (calls_server n p) c h = ground arith
  run_call-IsAccounted (calls_other n p) c h = ground arith

  on_write-IsAccounted :
      (status : Status) (c : Conn V)
      → IsAccounted uv k a f c
      → IsAccounted uv (suc k) a f (on_write status c)
  unfolding on_write
  on_write-IsAccounted done c h = ground arith
  on_write-IsAccounted (error code) c h = ground arith

  on_alloc-IsAccounted :
      (size : ℕ) (c : Conn V)
      → IsAccounted uv k a f c
      → IsAccounted uv k (suc a) f (on_alloc size c)
  unfolding on_alloc
  on_alloc-IsAccounted size c h = ground arith

  inner-IsAccounted :
      (s : Session V) (i : Input V)
      → is_inner i ≡ true
      → IsAccounted uv k a f s.conn
      → Holds (λ t. IsAccounted uv k a f t.conn) (step uv s i)
  inner-IsAccounted =
      inner-keeps uv (IsAccounted uv k a f) emit-IsAccounted
        (λ n b c h. record {
          requests = h.requests;
          made = h.made;
          deleted = h.deleted;
          own = h.own;
        })
        run_call-IsAccounted

  fill-IsAccounted :
      (b : ℕ) (bytes : List ℕ) (s : Session V)
      → IsAccounted uv k a f s.conn
      → Holds (λ t. IsAccounted uv k a (suc f) t.conn) (on_read uv (received (b ∷ bytes)) s)
  unfolding on_read
  fill-IsAccounted b bytes s h =
      Holds-bind (λ t. IsAccounted uv k a f t.conn) (λ t. IsAccounted uv k a (suc f) t.conn) _ _
        (read-keeps uv (IsAccounted uv k a f) emit-IsAccounted
          (λ n b c h. record {
            requests = h.requests;
            made = h.made;
            deleted = h.deleted;
            own = h.own;
          })
          run_call-IsAccounted s.read_handler (b ∷ bytes) s h)
        (λ t g. record {
          requests = g.requests;
          made = g.made;
          deleted = ap suc g.deleted;
          own = g.own;
        })

module _ {V : Type 0} (uv : Uv) where
  step-IsAccounted :
      (k a f : ℕ) (s : Session V) (i : Input V)
      → IsAccounted uv k a f s.conn
      → Holds (λ t. IsAccounted uv (ended k i) (asked a i) (filled f i) t.conn) (step uv s i)
  unfolding step on_read run_call
  step-IsAccounted k a f s (alloc size) h = on_alloc-IsAccounted uv k a f size s.conn h
  step-IsAccounted k a f s (written status) h = on_write-IsAccounted uv k a f status s.conn h
  step-IsAccounted k a f s (read (received (b ∷ bytes))) h = fill-IsAccounted uv k a f b bytes s h
  step-IsAccounted k a f s (read (received [])) h = h
  step-IsAccounted k a f s (read (failed code)) h =
      run_call-IsAccounted uv k a f calls_close s.conn h
  step-IsAccounted k a f s closed h = inner-IsAccounted uv k a f s closed refl h
  step-IsAccounted k a f s timer h = inner-IsAccounted uv k a f s timer refl h
  step-IsAccounted k a f s started h = inner-IsAccounted uv k a f s started refl h
  step-IsAccounted k a f s (send_value type v) h =
      inner-IsAccounted uv k a f s (send_value type v) refl h
  step-IsAccounted k a f s (api x) h = inner-IsAccounted uv k a f s (api x) refl h

  run-IsAccounted :
      (k a f : ℕ) (s : Session V) (is : List (Input V))
      → IsAccounted uv k a f s.conn
      → Holds
          (λ t. IsAccounted uv (foldl ended k is) (foldl asked a is) (foldl filled f is) t.conn)
          (run uv s is)
  run-IsAccounted k a f s [] h = h
  run-IsAccounted k a f s (i ∷ is) h =
      Holds-bind (λ t. IsAccounted uv (ended k i) (asked a i) (filled f i) t.conn) _ (step uv s i) _
        (step-IsAccounted k a f s i h)
        (λ t g. run-IsAccounted (ended k i) (asked a i) (filled f i) t is g)

  accept-IsAccounted :
      (address : ℕ) (peer : Peer) → IsAccounted uv 0 0 0 (accept V address peer []).conn
  unfolding accept
  accept-IsAccounted address (inet a p) = record {
    requests = refl;
    made = refl;
    deleted = refl;
    own = refl;
  }
  accept-IsAccounted address (inet6 a p) = record {
    requests = refl;
    made = refl;
    deleted = refl;
    own = refl;
  }

  -- The memory of a session that begins with `accept`, whatever handlers and interceptors it is given,
  -- whatever happens to it and whatever calls its handlers make: the write requests made and the writes that
  -- have ended are together as many as the requests deleted and the writes that libuv took on; there
  -- is a read buffer for each that libuv asks for, and one is deleted for each read that brings bytes,
  -- and for no other.
  pub session_memory_run :
      (address : ℕ) (peer : Peer) (x : Setup V) (is : List (Input V)) (t : Session V)
      → run uv (set_up x (accept V address peer [])) is ≡ returns t
      → (requests_made t.history + foldl ended 0 is
          ≡ requests_deleted t.history + requests_accepted uv t.history)
        × (buffers_made t.history ≡ foldl asked 0 is)
        × (buffers_deleted t.history ≡ foldl filled 0 is)
  session_memory_run address peer x is t e =
      let s = set_up x (accept V address peer []) in
      let first = accept-IsAccounted address peer in
      let h =
        Holds-of_returns
          (λ u. IsAccounted uv (foldl ended 0 is) (foldl asked 0 is) (foldl filled 0 is) u.conn)
          (run uv s is)
          (run-IsAccounted 0 0 0 s is (record {
            requests = first.requests;
            made = first.made;
            deleted = first.deleted;
            own = first.own;
          }))
          e in
      (h.requests, h.made, h.deleted)
