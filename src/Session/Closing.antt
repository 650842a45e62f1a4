-- ===== src/Session/Closing.antt =====
-- Closing a session over whole runs: src/session.cpp, `close` and the guards on `is_closing_`.
use libuv_net.Base.{ℕ, ◌+◌, ◌≡◌, refl, true, List, if◌then◌else◌, arith}
use libuv_net.Base.Outcome.{returns, Holds, Holds-of_returns}
use libuv_net.Uv.{Uv, Peer, inet, inet6, Event, closes, writes, is_plain_lem}
use libuv_net.Session.Defs.{
  Call, calls_send, calls_stop, calls_close, calls_server, calls_other, Conn, Session, accept,
  run_call,
}
use libuv_net.Session.Lifecycle.{Input, Setup, set_up, run}
use libuv_net.Session.Steps.{run-keeps}

-- `before` counts the calls of uv_close for the handles that came earlier on the same loop.
pub record IsConsistent {V : Type 0} (before : ℕ) (c : Conn V) : Type 0 where
  pub agree : c.socket_closing ≡ c.is_closing
  pub once : closes c.history ≡ before + (if c.is_closing then 1 else 0)

module _ {V : Type 0} (uv : Uv) where
  pub run_call-IsConsistent :
      (before : ℕ) (x : Call) (c : Conn V)
      → IsConsistent before c
      → IsConsistent before (run_call uv x c)
  unfolding run_call
  run_call-IsConsistent before (calls_send p) c h = ground arith
  run_call-IsConsistent before calls_stop c h = ground arith
  run_call-IsConsistent before calls_close c h = ground arith
  run_call-IsConsistent before (calls_server k p) c h = ground arith
  run_call-IsConsistent before (calls_other k p) c h = ground arith

  pub run-IsConsistent :
      (before : ℕ) (s : Session V) (is : List (Input V))
      → IsConsistent before s.conn
      → Holds (λ t. IsConsistent before t.conn) (run uv s is)
  run-IsConsistent before =
      run-keeps uv (IsConsistent before)
        (λ e c plain h. record {
          agree = h.agree;
          once = ground (arith, is_plain_lem e c.history plain);
        })
        (λ n b c h. record { agree = h.agree; once = h.once }) (run_call-IsConsistent before)

  -- A closed connection that has written `old`.
  record IsClosed (old : List (List ℕ)) (c : Conn V) : Type 0 where
    closing : c.is_closing ≡ true
    quiet : writes c.history ≡ old

  run_call-IsClosed :
      (old : List (List ℕ)) (x : Call) (c : Conn V)
      → IsClosed old c
      → IsClosed old (run_call uv x c)
  unfolding run_call
  run_call-IsClosed old (calls_send p) c h = ground arith
  run_call-IsClosed old calls_stop c h = ground arith
  run_call-IsClosed old calls_close c h = ground arith
  run_call-IsClosed old (calls_server k p) c h = ground arith
  run_call-IsClosed old (calls_other k p) c h = ground arith

  run-IsClosed :
      (old : List (List ℕ)) (s : Session V) (is : List (Input V))
      → IsClosed old s.conn
      → Holds (λ t. IsClosed old t.conn) (run uv s is)
  run-IsClosed old =
      run-keeps uv (IsClosed old)
        (λ e c plain h. record {
          closing = h.closing;
          quiet = ground (arith, is_plain_lem e c.history plain);
        })
        (λ n b c h. record { closing = h.closing; quiet = h.quiet }) (run_call-IsClosed old)

  pub accept-IsConsistent :
      (address : ℕ) (peer : Peer) (history : List Event)
      → IsConsistent (closes history) (accept V address peer history).conn
  unfolding accept
  accept-IsConsistent address (inet a p) history = record { agree = refl; once = omega arith }
  accept-IsConsistent address (inet6 a p) history = record { agree = refl; once = omega arith }

  -- From its constructor on, whatever handlers and interceptors a session is given, whatever happens
  -- to it and whatever calls its handlers make, uv_close is called on its socket once if the session is
  -- closing, and never if it is not.
  pub closes-run :
      (address : ℕ) (peer : Peer) (history : List Event) (x : Setup V) (is : List (Input V))
      (t : Session V)
      → run uv (set_up x (accept V address peer history)) is ≡ returns t
      → closes t.history ≡ closes history + (if t.is_closing then 1 else 0)
  closes-run address peer history x is t e =
      let s = set_up x (accept V address peer history) in
      let h = accept-IsConsistent address peer history in
      (Holds-of_returns (λ u. IsConsistent (closes history) u.conn) (run uv s is)
        (run-IsConsistent (closes history) s is (record { agree = h.agree; once = h.once })) e).once

  -- In a run that begins with a closing session, the session stays closing and writes nothing: no
  -- answer of a handler, no heartbeat, no data of its owner.
  pub closed-silent :
      (s t : Session V) (is : List (Input V))
      → s.is_closing ≡ true
      → run uv s is ≡ returns t
      → (t.is_closing ≡ true) × (writes t.history ≡ writes s.history)
  closed-silent s t is h e =
      let closed =
        Holds-of_returns (λ u. IsClosed (writes s.history) u.conn) (run uv s is)
          (run-IsClosed (writes s.history) s is (record { closing = h; quiet = refl })) e in
      (closed.closing, closed.quiet)
