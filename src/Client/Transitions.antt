-- ===== src/Client/Transitions.antt =====
-- What the single operations of src/client.cpp do to the connection, its socket and its requests.
use libuv_net.Base.{
  ℕ, ◌+◌, ◌≡◌, true, false, Bool, not, ◌&&◌, ◌||◌, List, ◌∷◌, if◌then◌else◌, arith,
}
use libuv_net.Packet.{Packet, serialize}
use libuv_net.Uv.{
  Uv, Status, done, error, Event, closes, requests_accepted, requests_made, requests_deleted,
}
use libuv_net.Client.Defs.{Link, connect, disconnect, send, on_write}
use libuv_net.Client.Callbacks.{on_connect, reading}

abbrev is_done : Status → Bool
is_done done = true
is_done (error code) = false

module _ {V : Type 0} (uv : Uv) where
  -- What `connect` asks for, on a client that is neither connected nor connecting: that the handle is
  -- not in use, that it can be made anew, and that the request is taken.
  abbrev pub can_connect : Link V → Bool
  can_connect l =
      not (l.is_connected || l.is_connecting)
      && not (uv.is_active l.history)
      && is_done (uv.tcp_init l.history)
      && is_done (uv.tcp_connect (Event.new_request ∷ Event.tcp_init ∷ l.history))

  connect_lem :
      (host : List ℕ) (port : ℕ) (l : Link V)
      → let r = connect uv host port l in
        let can = can_connect l in
        (r.0 ≡ can)
        × (r.1.is_connected ≡ l.is_connected)
        × (r.1.is_connecting ≡ (can || l.is_connecting))
        × (requests_accepted uv r.1.history
            ≡ requests_accepted uv l.history + (if can then 1 else 0))
        × (requests_made r.1.history + requests_deleted l.history
            ≡ requests_deleted r.1.history + requests_made l.history + (if can then 1 else 0))
  unfolding connect
  connect_lem host port l = ground arith

  -- After `disconnect` the client is idle; the socket is closed exactly if the client was connected
  -- or connecting and the socket was not closing yet; a second call changes nothing.
  disconnect_lem :
      (l : Link V)
      → let m = disconnect l in
        (m.is_connected ≡ false)
        × (m.is_connecting ≡ false)
        × (closes m.history
            ≡ closes l.history
              + (if (l.is_connected || l.is_connecting) && not l.socket_closing then 1 else 0))
        × (disconnect m ≡ m)
  unfolding disconnect
  disconnect_lem l = ground arith

  -- A request of `send` is deleted once: at once if the write fails or never starts, and otherwise
  -- by the callback that ends it, whatever its status.
  send-on_write_requests :
      (p : Packet) (status : Status) (l : Link V)
      → let m = send uv p l in
        let pending =
          l.is_connected && (elim (uv.write (Event.new_request ∷ l.history) (serialize uv.abi p)) [
            | done ↦ true
            | error _ ↦ false
          ]) in
        (requests_made m.history + requests_deleted l.history
          ≡ requests_deleted m.history + requests_made l.history + (if pending then 1 else 0))
        × (requests_deleted (on_write status m).history ≡ requests_deleted m.history + 1)
        × (requests_made (on_write status m).history ≡ requests_made m.history)
  unfolding send on_write
  send-on_write_requests p status l = ground arith

  -- If reading cannot be started on a fresh connection, the client goes idle without closing its
  -- socket: `disconnect` finds both flags down and returns.
  on_connect_leaks :
      (l : Link V) (code : ℕ)
      → l.is_connected ≡ false
      → uv.read_start (Event.delete_request ∷ l.history) ≡ error code
      → let m = on_connect uv done l in
        (m.is_connected ≡ false) × (m.is_connecting ≡ false) × (closes m.history ≡ closes l.history)
  unfolding on_connect disconnect
  on_connect_leaks l code down e = rw (e, on_connect) (ground arith)

  -- `connect` succeeds exactly on a client that is neither connected nor connecting, whose handle is
  -- not in use, where uv_tcp_init and uv_tcp_connect succeed; then libuv has taken one more request,
  -- which is not deleted, and the client is connecting; otherwise libuv has taken none, what was made
  -- is deleted, and the two flags are as before. After `disconnect` the client is idle; the socket is
  -- closed exactly if the client was connected or connecting and the socket was not closing yet; a
  -- second call changes nothing. If reading cannot be started on a connection that has just come to
  -- stand, the client goes idle, and the socket is closed only if the client was connected already.
  pub connects_and_disconnects :
      (host : List ℕ) (port code : ℕ) (l : Link V)
      → let r = connect uv host port l in
        let can = can_connect l in
        let m = disconnect l in
        let n = reading uv (error code) l in
        ((r.0 ≡ can)
          × (r.1.is_connected ≡ l.is_connected)
          × (r.1.is_connecting ≡ (can || l.is_connecting))
          × (requests_accepted uv r.1.history
              ≡ requests_accepted uv l.history + (if can then 1 else 0))
          × (requests_made r.1.history + requests_deleted l.history
              ≡ requests_deleted r.1.history + requests_made l.history + (if can then 1 else 0)))
        × ((m.is_connected ≡ false)
            × (m.is_connecting ≡ false)
            × (closes m.history
                ≡ closes l.history
                  + (if (l.is_connected || l.is_connecting) && not l.socket_closing then 1 else 0))
            × (disconnect m ≡ m))
        × ((n.is_connected ≡ false)
            × (n.is_connecting ≡ false)
            × (closes n.history
                ≡ closes l.history + (if l.is_connected && not l.socket_closing then 1 else 0)))
  unfolding reading disconnect
  connects_and_disconnects host port code l =
      (connect_lem host port l, disconnect_lem l, ground arith)
