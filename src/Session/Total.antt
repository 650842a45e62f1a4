-- ===== src/Session/Total.antt =====
-- Exceptions and loops over whole runs of src/session.cpp.
use libuv_net.Base.{
  ℕ, ◌≡◌, refl, sym, ap, ◌∙◌, List, [], ◌∷◌, ◌++◌, Option, none, some, Option-cases, inl, inr, All,
  All-append,
}
use libuv_net.Base.Outcome.{Outcome, returns, ◌>>=◌, Holds-of_returns}
use libuv_net.Packet.{packet_of, IsByte}
use libuv_net.Interceptor.Calm.{IsCalm, IsCalmOut}
use libuv_net.Interceptor.{get_interceptor}
use libuv_net.Framing.{frames}
use libuv_net.Framing.Prefix.{All-rest}
use libuv_net.Uv.{Uv, failed, received, Event}
use libuv_net.Session.Defs.{Conn, Session, ReadHandler, emit, on_conn, run_calls, send, send_data}
use libuv_net.Session.Receive.{append_to_buffer, on_read}
use libuv_net.Session.Refinement.{session, receives}
use libuv_net.Session.Lifecycle.{
  Input, alloc, read, written, closed, timer, started, send_value, api, step, run,
}
use libuv_net.Session.Steps.{step-keeps}
use libuv_net.Session.Delivery.{Tables, tables}
use libuv_net.Session.Robust.{HandlersReturn, Keeps, run_call-Keeps, foldm-Returns}

-- What comes in are bytes.
abbrev pub IsGood : {V : Type 0} → Input V → Type 0
IsGood (read (received bytes)) = All IsByte bytes
IsGood _ = Unit {0}

-- The read handler returns.
abbrev pub ReaderReturns : Option ReadHandler → Type 0
ReaderReturns r = (h : ReadHandler) (bytes : List ℕ) → r ≡ some h → h.ends bytes ≡ returns tt

module _ {V : Type 0} (uv : Uv) (tb : Tables V) (r : Option ReadHandler)
    (calm : IsCalm tb.interceptors) (calm_out : IsCalmOut tb.interceptors)
    (quiet : HandlersReturn tb) (reads : ReaderReturns r) where
  -- A result whose buffer holds bytes.
  abbrev Ends : Outcome (Session V) → Type 0
  Ends o = (t : Session V) × (o ≡ returns t) × All IsByte t.read_buffer

  append_to_buffer-Ends :
      (bytes : List ℕ) (s : Session V)
      → Keeps uv tb r s.conn
      → All IsByte (s.read_buffer ++ bytes)
      → Ends (append_to_buffer uv bytes s)
  append_to_buffer-Ends bytes s k all =
      let fr = frames uv.abi (s.read_buffer ++ bytes) in
      let (d, e) = foldm-Returns uv tb r calm quiet fr.packets s.conn k in
      (
        session d fr.rest,
        rw (receives uv bytes s.conn s.read_buffer all) (rw e),
        All-rest uv.abi (s.read_buffer ++ bytes) all,
      )

  after_read :
      (o : Outcome (Session V))
      → Ends o
      → Ends (o >>= λ t. returns (on_conn (emit Event.delete_buffer) t))
  after_read o (t, e, all) = (on_conn (emit Event.delete_buffer) t, rw e, all)

  ended :
      (m : Outcome (Unit {0})) (s : Session V)
      → m ≡ returns tt
      → All IsByte s.read_buffer
      → Ends (m >>= λ _. returns s)
  ended m s e all = (s, rw e refl, all)

  read-Ends :
      (o : Option ReadHandler) (bytes : List ℕ) (s : Session V)
      → Keeps uv tb r s.conn
      → ReaderReturns o
      → All IsByte s.read_buffer
      → All IsByte bytes
      → Ends (elim o [
        | some h ↦ h.ends bytes >>= λ _.
            returns (
              on_conn (λ c. run_calls uv (h.react bytes) (emit (Event.call_read h.name bytes) c)) s)
        | none ↦ append_to_buffer uv bytes s
      ])
  read-Ends (some h) bytes s k quick old new =
      ended (h.ends bytes)
        (on_conn (λ c. run_calls uv (h.react bytes) (emit (Event.call_read h.name bytes) c)) s)
        (quick h bytes refl) old
  read-Ends none bytes s k quick old new =
      append_to_buffer-Ends bytes s k (All-append IsByte s.read_buffer bytes old new)

  send_data_returns :
      (type : ℕ) (v : V) (c : Conn V)
      → Keeps uv tb r c
      → (d : Conn V) × (send_data uv type v c ≡ returns d)
  unfolding send_data
  send_data_returns type v c k = elim (Option-cases (get_interceptor type c.interceptors)) [
    | inl gone ↦ (c, rw (gone, send_data))
    | inr (i, found) ↦
        let (bytes, e) =
          calm_out type v i (ap (λ u. get_interceptor type u.interceptors) (sym k.0) ∙ found) in
        (send uv (packet_of type bytes) c, rw (found, send_data) (rw e))
  ]

  step-Ends :
      (s : Session V) (i : Input V)
      → Keeps uv tb r s.conn
      → All IsByte s.read_buffer
      → IsGood i
      → Ends (step uv s i)
  unfolding step on_read
  step-Ends s (alloc size) k all good = (_, refl, all)
  step-Ends s (read (failed code)) k all good = (_, refl, all)
  step-Ends s (read (received [])) k all good = (_, refl, all)
  step-Ends s (read (received (b ∷ bytes))) k all good =
      after_read _
        (read-Ends s.read_handler (b ∷ bytes) s k (λ h bs e. reads h bs (sym k.1 ∙ e)) all good)
  step-Ends s (written status) k all good = (_, refl, all)
  step-Ends s closed k all good = (_, refl, all)
  step-Ends s timer k all good = (_, refl, all)
  step-Ends s started k all good = (_, refl, all)
  step-Ends s (send_value type v) k all good =
      let (d, e) = send_data_returns type v s.conn k in (record s { conn = d }, rw e, all)
  step-Ends s (api x) k all good = (_, refl, all)

  pub step_returns :
      (s : Session V) (i : Input V)
      → Keeps uv tb r s.conn
      → All IsByte s.read_buffer
      → IsGood i
      → (t : Session V) × (step uv s i ≡ returns t)
        × Keeps uv tb r t.conn
        × All IsByte t.read_buffer
  step_returns s i k all good =
      let (t, e, bytes) = step-Ends s i k all good in
      (
        t,
        e,
        Holds-of_returns (λ (u : Session V). Keeps uv tb r u.conn) (step uv s i)
            (step-keeps uv (Keeps uv tb r) (λ x c plain h. h) (λ n b c h. h)
              (run_call-Keeps uv tb r) s i k)
            e,
        bytes,
      )

  -- If what comes in are bytes, no interceptor of a session throws, and its read handler and the
  -- packet handlers in its tables return, whatever calls they make, then over every run from a
  -- state with these tables, no callback and no call throws, and each one ends: an exception comes
  -- from an interceptor or a handler only, and no other loop goes on forever.
  pub session_run_returns :
      (s : Session V) (is : List (Input V))
      → tables s.conn ≡ tb
      → s.read_handler ≡ r
      → All IsByte s.read_buffer
      → All IsGood is
      → (t : Session V) × (run uv s is ≡ returns t)
  session_run_returns s [] k l all good = (s, refl)
  session_run_returns s (i ∷ is) k l all good =
      let (t, e, kept, bytes) = step_returns s i (k, l) all good.0 in
      let (u, later) = session_run_returns t is kept.0 kept.1 bytes good.1 in (u, rw e later)
