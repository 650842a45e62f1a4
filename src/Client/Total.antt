-- ===== src/Client/Total.antt =====
-- Exceptions and loops over whole runs of src/client.cpp.
use libuv_net.Base.{
  ℕ, ◌≡◌, refl, sym, ap, ◌∙◌, true, false, List, [], ◌∷◌, ◌++◌, Option, none, some, Option-cases,
  inl, inr, All, All-append, arith,
}
use libuv_net.Base.Outcome.{Outcome, returns, Holds-of_returns}
use libuv_net.Packet.{packet_of, IsByte}
use libuv_net.Interceptor.{get_interceptor}
use libuv_net.Framing.{frames}
use libuv_net.Framing.Prefix.{All-rest}
use libuv_net.Uv.{Uv, Status, done, error, failed, received, Event}
use libuv_net.Interceptor.Calm.{IsCalm, IsCalmOut}
use libuv_net.Client.Defs.{Handler, Link, Client, start_heartbeat, stop, send, send_data}
use libuv_net.Client.Callbacks.{on_connect, on_close, reading, notify}
use libuv_net.Client.Receive.{append_to_buffer, on_read}
use libuv_net.Client.Robust.{Tables, tables, HandlersReturn, Keeps, run_call-Keeps, foldm-Returns}
use libuv_net.Client.Refinement.{client, append_to_buffer-frames}
use libuv_net.Client.Lifecycle.{
  Input, alloc, connected, read, written, closed, timer, send_value, stopped, api, step, run,
}
use libuv_net.Client.Keeps.{run_calls-keeps}
use libuv_net.Client.Steps.{step-keeps}

-- What comes in are bytes.
abbrev pub IsGood : {V : Type 0} → Input V → Type 0
IsGood (read (received bytes)) = All IsByte bytes
IsGood _ = Unit {0}

module _ {V : Type 0} (uv : Uv) (t : Tables V) where
  notify-Keeps :
      (o : Option Handler) (event : ℕ → Event) (l : Link V)
      → Keeps uv t l
      → Keeps uv t (notify uv o event l)
  unfolding notify
  notify-Keeps none event l h = h
  notify-Keeps (some x) event l h =
      run_calls-keeps uv (Keeps uv t) (λ e l plain k. k) (run_call-Keeps uv t) x.react _ h

  reading-Keeps : (status : Status) (l : Link V) → Keeps uv t l → Keeps uv t (reading uv status l)
  unfolding reading
  reading-Keeps (error code) l h = ground arith
  reading-Keeps done l h =
      notify-Keeps l.connect_handler Event.call_connect
        (start_heartbeat uv (record l { is_connected = true; is_connecting = false })) h

  on_connect-Keeps :
      (status : Status) (l : Link V) → Keeps uv t l → Keeps uv t (on_connect uv status l)
  unfolding on_connect
  on_connect-Keeps (error code) l h = h
  on_connect-Keeps done l h = reading-Keeps (uv.read_start (Event.delete_request ∷ l.history)) _ h

  on_close-Keeps : (l : Link V) → Keeps uv t l → Keeps uv t (on_close uv l)
  unfolding on_close
  on_close-Keeps l h = notify-Keeps l.disconnect_handler Event.call_close _ h

  stop-Keeps : (l : Link V) → Keeps uv t l → Keeps uv t (stop l)
  unfolding stop
  stop-Keeps l h = ground arith

  step-Keeps :
      (s s1 : Client V) (i : Input V)
      → Keeps uv t s.link
      → step uv s i ≡ returns s1
      → Keeps uv t s1.link
  step-Keeps s s1 i h e =
      Holds-of_returns (λ (u : Client V). Keeps uv t u.link) (step uv s i)
        (step-keeps uv (Keeps uv t) (λ e l plain k. k) (run_call-Keeps uv t) (λ _. true)
          (λ status l _ k. on_connect-Keeps status l k) on_close-Keeps stop-Keeps s i refl h)
        e

module _ {V : Type 0} (uv : Uv) (tb : Tables V) (calm : IsCalm tb.interceptors)
    (calm_out : IsCalmOut tb.interceptors) (quiet : HandlersReturn tb) where
  -- A result whose buffer holds bytes.
  abbrev Ends : Outcome (Client V) → Type 0
  Ends o = (t : Client V) × (o ≡ returns t) × All IsByte t.buffer

  append_to_buffer-Ends :
      (bytes : List ℕ) (s : Client V)
      → Keeps uv tb s.link
      → All IsByte (s.buffer ++ bytes)
      → Ends (append_to_buffer uv bytes s)
  append_to_buffer-Ends bytes s k all =
      let fr = frames uv.abi (s.buffer ++ bytes) in
      let (d, e) = foldm-Returns uv tb calm quiet fr.packets s.link k in
      (
        client d fr.rest,
        rw (append_to_buffer-frames uv bytes s.link s.buffer all) (rw e),
        All-rest uv.abi (s.buffer ++ bytes) all,
      )

  send_data_returns :
      (type : ℕ) (v : V) (l : Link V)
      → Keeps uv tb l
      → (k : Link V) × (send_data uv type v l ≡ returns k)
  unfolding send_data
  send_data_returns type v l h = elim (Option-cases (get_interceptor type l.interceptors)) [
    | inl gone ↦ (l, rw (gone, send_data))
    | inr (i, found) ↦
        let (bytes, e) =
          calm_out type v i (ap (λ u. get_interceptor type u.interceptors) (sym h) ∙ found) in
        (send uv (packet_of type bytes) l, rw (found, send_data) (rw e))
  ]

  step-Ends :
      (s : Client V) (i : Input V)
      → Keeps uv tb s.link
      → All IsByte s.buffer
      → IsGood i
      → Ends (step uv s i)
  unfolding step on_read
  step-Ends s (alloc size) k all good = (_, refl, all)
  step-Ends s (connected status) k all good = (_, refl, all)
  step-Ends s (read (failed code)) k all good = (_, refl, all)
  step-Ends s (read (received [])) k all good = (_, refl, all)
  step-Ends s (read (received (b ∷ bytes))) k all good =
      append_to_buffer-Ends (b ∷ bytes) s k (All-append IsByte s.buffer (b ∷ bytes) all good)
  step-Ends s (written status) k all good = (_, refl, all)
  step-Ends s closed k all good = (_, refl, all)
  step-Ends s timer k all good = (_, refl, all)
  step-Ends s (send_value type v) k all good =
      let (l, e) = send_data_returns type v s.link k in (record s { link = l }, rw e, all)
  step-Ends s stopped k all good = (_, refl, all)
  step-Ends s (api x) k all good = (_, refl, all)

  -- If what comes in are bytes, no interceptor of a client throws, and the packet handlers in its
  -- tables return, whatever calls they make, and so do its handlers of connection and
  -- disconnection, then over every run from a state with these tables, no callback and no call
  -- throws, and each one ends: an exception comes from an interceptor or a handler only, and no
  -- other loop goes on forever.
  pub client_run_returns :
      (s : Client V) (is : List (Input V))
      → tables s.link ≡ tb
      → All IsByte s.buffer
      → All IsGood is
      → (t : Client V) × (run uv s is ≡ returns t)
  client_run_returns s [] k all good = (s, refl)
  client_run_returns s (i ∷ is) k all good =
      let (t, e, bytes) = step-Ends s i k all good.0 in
      let (u, later) = client_run_returns t is (step-Keeps uv tb s t i k e) bytes good.1 in
      (u, rw e later)
