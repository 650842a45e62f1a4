-- ===== src/Client/Connection.antt =====
-- The states of a client: idle, connecting, connected; src/client.cpp, `connect`, `disconnect`,
-- `send` and the callbacks.
use libuv_net.Base.{
  ℕ, ◌≡◌, refl, Bool, true, false, not, ◌&&◌, ◌||◌, List, [], ◌∷◌, Option, none, some, All, arith,
}
use libuv_net.Base.Outcome.{returns, ◌>>=◌, Holds, Holds-of_returns}
use libuv_net.Uv.{Uv, Status, done, error, Event, writes, is_plain, is_plain_lem, is_plain-is_inert}
use libuv_net.Client.Defs.{
  Call, calls_send, calls_connect, calls_disconnect, Handler, Link, Client, emit, new, stop,
  start_heartbeat, run_call,
}
use libuv_net.Client.Callbacks.{on_close, on_connect, notify, reading}
use libuv_net.Client.Lifecycle.{Input, Setup, set_up, connected, run}
use libuv_net.Client.Keeps.{run_calls-keeps}
use libuv_net.Client.Steps.{run-keeps}

all_true {ℓ} : {A : Type ℓ} (xs : List A) → All (λ _. true ≡ true) xs
all_true [] = tt
all_true (x ∷ xs) = (refl, all_true xs)

-- Never connected and connecting at once, and no heartbeat without a connection.
pub record IsSane {V : Type 0} (l : Link V) : Type 0 where
  pub one_state : l.is_connected && l.is_connecting ≡ false
  pub heartbeat : not l.timer_active || l.is_connected ≡ true

-- Not connected, having written `old`.
pub record IsQuiet {V : Type 0} (old : List (List ℕ)) (l : Link V) : Type 0 where
  pub down : l.is_connected ≡ false
  pub quiet : writes l.history ≡ old

-- All inputs but the news that a connection stands.
abbrev pub no_success : {V : Type 0} → Input V → Bool
no_success (connected done) = false
no_success _ = true

module _ {V : Type 0} (uv : Uv) where
  run_call-IsSane : (x : Call) (l : Link V) → IsSane l → IsSane (run_call uv x l)
  unfolding run_call
  run_call-IsSane (calls_send p) l h = ground arith
  run_call-IsSane (calls_connect host port) l h = ground arith
  run_call-IsSane calls_disconnect l h = ground arith

  emit-IsSane : (e : Event) (l : Link V) → is_plain e ≡ true → IsSane l → IsSane (emit e l)
  emit-IsSane e l plain h = record { one_state = h.one_state; heartbeat = h.heartbeat }

  notify-IsSane :
      (o : Option Handler) (event : ℕ → Event) (l : Link V)
      → IsSane l
      → IsSane (notify uv o event l)
  unfolding notify
  notify-IsSane none event l h = h
  notify-IsSane (some x) event l h =
      run_calls-keeps uv IsSane (λ e m h. emit-IsSane e m (is_plain-is_inert e h)) run_call-IsSane
        x.react _ (record { one_state = h.one_state; heartbeat = h.heartbeat })

  reading-IsSane : (status : Status) (l : Link V) → IsSane l → IsSane (reading uv status l)
  unfolding reading
  reading-IsSane (error code) l h = ground arith
  reading-IsSane done l h =
      notify-IsSane l.connect_handler Event.call_connect
        (start_heartbeat uv (record l { is_connected = true; is_connecting = false }))
        (record { one_state = refl; heartbeat = refl })

  on_connect-IsSane : (status : Status) (l : Link V) → IsSane l → IsSane (on_connect uv status l)
  unfolding on_connect
  on_connect-IsSane (error code) l h = ground arith
  on_connect-IsSane done l h =
      reading-IsSane (uv.read_start (Event.delete_request ∷ l.history)) _
        (record { one_state = h.one_state; heartbeat = h.heartbeat })

  on_close-IsSane : (l : Link V) → IsSane l → IsSane (on_close uv l)
  unfolding on_close
  on_close-IsSane l h =
      notify-IsSane l.disconnect_handler Event.call_close
        (emit Event.timer_stop
          (record l { is_connected = false; is_connecting = false; timer_active = false }))
        (record { one_state = refl; heartbeat = refl })

  stop-IsSane : (l : Link V) → IsSane l → IsSane (stop l)
  unfolding stop
  stop-IsSane l h = ground arith

  run_call-IsQuiet :
      (old : List (List ℕ)) (x : Call) (l : Link V) → IsQuiet old l → IsQuiet old (run_call uv x l)
  unfolding run_call
  run_call-IsQuiet old (calls_send p) l h = ground arith
  run_call-IsQuiet old (calls_connect host port) l h = ground arith
  run_call-IsQuiet old calls_disconnect l h = ground arith

  emit-IsQuiet :
      (old : List (List ℕ)) (e : Event) (l : Link V)
      → is_plain e ≡ true
      → IsQuiet old l
      → IsQuiet old (emit e l)
  emit-IsQuiet old e l plain h = record {
    down = h.down;
    quiet = ground (arith, is_plain_lem e l.history plain);
  }

  on_connect-IsQuiet :
      (old : List (List ℕ)) (status : Status) (l : Link V)
      → no_success {V = V} (connected status) ≡ true
      → IsQuiet old l
      → IsQuiet old (on_connect uv status l)
  unfolding on_connect
  on_connect-IsQuiet old (error code) l ok h = ground arith
  on_connect-IsQuiet old done l ok h = cc

  notify-IsQuiet :
      (old : List (List ℕ)) (o : Option Handler) (l : Link V)
      → IsQuiet old l
      → IsQuiet old (notify uv o Event.call_close l)
  unfolding notify
  notify-IsQuiet old none l h = h
  notify-IsQuiet old (some x) l h =
      run_calls-keeps uv (IsQuiet old) (λ e m h. emit-IsQuiet old e m (is_plain-is_inert e h))
        (run_call-IsQuiet old) x.react _ (emit-IsQuiet old _ l refl h)

  on_close-IsQuiet :
      (old : List (List ℕ)) (l : Link V) → IsQuiet old l → IsQuiet old (on_close uv l)
  unfolding on_close
  on_close-IsQuiet old l h =
      notify-IsQuiet old l.disconnect_handler _ (record { down = refl; quiet = h.quiet })

  stop-IsQuiet : (old : List (List ℕ)) (l : Link V) → IsQuiet old l → IsQuiet old (stop l)
  unfolding stop
  stop-IsQuiet old l h = ground arith

  -- From the constructor on, whatever handlers and interceptors it is given, whatever happens and
  -- whatever calls the handlers make, a client is never connected and connecting at once, and its heartbeat
  -- timer runs only while it is connected.
  pub run-IsSane :
      (created : Bool) (history : List Event) (x : Setup V) (is : List (Input V))
      → Holds (λ t. IsSane t.link) (new V created history >>= λ s. run uv (set_up x s) is)
  unfolding new
  run-IsSane false history x is = tt
  run-IsSane true history x is =
      run-keeps uv IsSane emit-IsSane run_call-IsSane (λ _. true)
        (λ status l _ h. on_connect-IsSane status l h) on_close-IsSane stop-IsSane _ is
        (all_true is) (record { one_state = refl; heartbeat = refl })

  -- In a run that begins without a connection and in which none comes to stand, a client writes
  -- nothing, whatever is asked of it, and stays unconnected.
  pub unconnected-silent :
      (s t : Client V) (is : List (Input V))
      → s.is_connected ≡ false
      → All (λ i. no_success i ≡ true) is
      → run uv s is ≡ returns t
      → (t.is_connected ≡ false) × (writes t.history ≡ writes s.history)
  unconnected-silent s t is down ok e =
      let h =
        Holds-of_returns (λ (u : Client V). IsQuiet (writes s.history) u.link) (run uv s is)
          (run-keeps uv (IsQuiet (writes s.history)) (emit-IsQuiet _) (run_call-IsQuiet _)
            no_success (on_connect-IsQuiet _) (on_close-IsQuiet _) (stop-IsQuiet _) s is ok
            (record { down = down; quiet = refl }))
          e in
      (h.down, h.quiet)
