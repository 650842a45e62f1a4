-- ===== src/Client/Heartbeat.antt =====
-- The heartbeat of src/client.cpp, over runs in which no new connection comes to stand.
use libuv_net.Base.{
  ℕ, ◌<◌, ◌+◌, ◌-◌, ◌/◌, ◌^◌, ◌≡◌, refl, true, false, List, Option, none, some, lt→ltb,
  if◌then◌else◌, All, arith,
}
use libuv_net.Base.Outcome.{returns, Holds, Holds-of_returns}
use libuv_net.Uv.{Uv, Status, done, error, Event, closes, writes}
use libuv_net.Client.Defs.{
  Call, calls_send, calls_connect, calls_disconnect, Handler, Link, Client, heartbeat_timeout_ms,
  elapsed_ms, stop, on_heartbeat_timer, run_call,
}
use libuv_net.Client.Callbacks.{on_close, on_connect, notify}
use libuv_net.Client.Lifecycle.{Input, connected, run}
use libuv_net.Client.Keeps.{run_calls-keeps}
use libuv_net.Client.Steps.{run-keeps}
use libuv_net.Client.Connection.{no_success}

module _ {V : Type 0} (uv : Uv) (at : ℕ) where
  abbrev Since : Link V → Type 0
  Since l = l.last_heartbeat ≡ at

  run_call-Since : (x : Call) (l : Link V) → Since l → Since (run_call uv x l)
  unfolding run_call
  run_call-Since (calls_send p) l h = ground arith
  run_call-Since (calls_connect host port) l h = ground arith
  run_call-Since calls_disconnect l h = ground arith

  on_connect-Since :
      (status : Status) (l : Link V)
      → no_success {V = V} (connected status) ≡ true
      → Since l
      → Since (on_connect uv status l)
  unfolding on_connect
  on_connect-Since (error code) l ok h = h
  on_connect-Since done l ok h = cc

  notify-Since :
      (o : Option Handler) (l : Link V) → Since l → Since (notify uv o Event.call_close l)
  unfolding notify
  notify-Since none l h = h
  notify-Since (some x) l h = run_calls-keeps uv Since (λ e m _ k. k) run_call-Since x.react _ h

  on_close-Since : (l : Link V) → Since l → Since (on_close uv l)
  unfolding on_close
  on_close-Since l h = notify-Since l.disconnect_handler _ h

  stop-Since : (l : Link V) → Since l → Since (stop l)
  unfolding stop
  stop-Since l h = ground arith

  run-Since :
      (s : Client V) (is : List (Input V))
      → All (λ i. no_success i ≡ true) is
      → Since s.link
      → Holds (λ t. Since t.link) (run uv s is)
  run-Since =
      run-keeps uv Since (λ e m _ k. k) run_call-Since no_success on_connect-Since on_close-Since
        stop-Since

on_heartbeat_timer-late :
    {V : Type 0} (uv : Uv) (l : Link V)
    → l.is_connected ≡ true
    → heartbeat_timeout_ms < elapsed_ms uv l
    → let d = on_heartbeat_timer uv l in
      (d.is_connected ≡ false)
      × (d.is_connecting ≡ false)
      × (d.socket_closing ≡ true)
      × (d.timer_active ≡ false)
      × (closes d.history ≡ closes l.history + (if l.socket_closing then 0 else 1))
      × (writes d.history ≡ writes l.history)
unfolding on_heartbeat_timer
on_heartbeat_timer-late uv l up late =
    ground (arith, up, lt→ltb heartbeat_timeout_ms (elapsed_ms uv l) late)

-- In a run in which no new connection comes to stand, whatever the server sends, heartbeats
-- included, and whatever the client sends, that ends in a connected client: at a tick more than 90
-- seconds after the heartbeat time with which the run began, uv_close is called on the socket unless
-- it is closing already, nothing is written, the timer stops and the client goes idle.
pub heartbeat_always_expires :
    {V : Type 0} (uv : Uv) (s t : Client V) (is : List (Input V))
    → All (λ i. no_success i ≡ true) is
    → run uv s is ≡ returns t
    → t.is_connected ≡ true
    → heartbeat_timeout_ms < (uv.clock t.history - s.last_heartbeat) / 10 ^ 6
    → let d = on_heartbeat_timer uv t.link in
      (d.is_connected ≡ false)
      × (d.is_connecting ≡ false)
      × (d.socket_closing ≡ true)
      × (d.timer_active ≡ false)
      × (closes d.history ≡ closes t.history + (if t.socket_closing then 0 else 1))
      × (writes d.history ≡ writes t.history)
heartbeat_always_expires uv s t is ok e up late = on_heartbeat_timer-late uv t.link up (
    rw
      (Holds-of_returns (λ u. u.last_heartbeat ≡ s.last_heartbeat) (run uv s is)
        (run-Since uv s.last_heartbeat s is ok refl) e)
      late)
