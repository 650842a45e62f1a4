-- ===== src/Client/Callbacks.antt =====
-- src/client.cpp: the callbacks that connect and disconnect a client, which call the handlers of its
-- user.
use libuv_net.Base.{ℕ, true, false, Option, none, some}
use libuv_net.Uv.{Uv, Status, done, error, Event}
use libuv_net.Client.Defs.{
  Handler, Link, emit, stop_heartbeat, disconnect, start_heartbeat, run_calls,
}

module _ {V : Type 0} (uv : Uv) where
  -- Calls the handler, if there is one.
  unfoldable pub notify : Option Handler → (ℕ → Event) → Link V → Link V
  unfolding run_calls
  notify none event l = l
  notify (some h) event l = run_calls uv h.react (emit (event h.name) l)

  unfoldable pub reading : Status → Link V → Link V
  unfolding start_heartbeat disconnect notify
  reading done l =
      let up = start_heartbeat uv (record l { is_connected = true; is_connecting = false }) in
      notify up.connect_handler Event.call_connect up
  reading (error code) l = disconnect (record l { is_connecting = false })

  unfoldable pub on_connect : Status → Link V → Link V
  unfolding reading
  on_connect (error code) l = record (emit Event.delete_request l) { is_connecting = false }
  on_connect done l =
      let m = emit Event.delete_request l in
      reading (uv.read_start m.history) (emit Event.read_start m)

  unfoldable pub on_close : Link V → Link V
  unfolding stop_heartbeat notify
  on_close l =
      notify l.disconnect_handler Event.call_close
        (stop_heartbeat (record l { is_connected = false; is_connecting = false }))
