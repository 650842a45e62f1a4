-- ===== src/Server/Listening.antt =====
-- The listening socket: `listen` and `stop_listening` of src/server.cpp.
use libuv_net.Base.{
  ℕ, ◌+◌, ◌≡◌, Bool, true, false, not, ◌&&◌, ◌||◌, List, ◌∷◌, if◌then◌else◌, arith,
}
use libuv_net.Uv.{Uv, Status, done, error, Event, closes}
use libuv_net.Server.Defs.{Server, listen, stop_listening}

abbrev pub succeeds : Status → Bool
succeeds done = true
succeeds (error code) = false

module _ {V : Type 0} where
  -- `listen` makes the server listen exactly if it did already or if both binding and listening
  -- succeed, and does nothing on a server that listens. It never touches the state of the socket
  -- that `stop_listening` leaves, nor closes it.
  listen_lem :
      (uv : Uv) (host : List ℕ) (port : ℕ) (s : Server V)
      → let t = listen uv host port s in
        (t.is_listening ≡ (
          s.is_listening
          || (succeeds (uv.tcp_bind s.history)
              && succeeds (uv.listen (Event.bind host port ∷ s.history)))))
        × (s.is_listening ≡ true → t ≡ s)
        × (t.socket_closing ≡ s.socket_closing)
        × (closes t.history ≡ closes s.history)
  unfolding listen
  listen_lem uv host port s = ground arith

  -- After `stop_listening` the server does not listen; the socket is closed exactly if the server
  -- listened and the socket was not closing yet; a second call changes nothing.
  stop_listening_lem :
      (s : Server V)
      → let t = stop_listening s in
        (t.is_listening ≡ false)
        × (closes t.history
            ≡ closes s.history + (if s.is_listening && not s.socket_closing then 1 else 0))
        × (stop_listening t ≡ t)
  unfolding stop_listening
  stop_listening_lem s = ground arith

  -- A server that has stopped listening never gets a new socket: whatever a later `listen` reports,
  -- it was asked of the handle that is closing.
  listen-stop_listening :
      (uv : Uv) (host : List ℕ) (port : ℕ) (s : Server V)
      → s.is_listening ≡ true
      → (listen uv host port (stop_listening s)).socket_closing ≡ true
  unfolding listen stop_listening
  listen-stop_listening uv host port s up = ground arith

  -- `listen` makes the server listen exactly if it did already or if both binding and listening
  -- succeed, does nothing on a server that listens, and never closes the socket. After
  -- `stop_listening` the server does not listen; the socket is closed exactly if the server listened
  -- and the socket was not closing yet; a second call changes nothing. A server that listened and has
  -- stopped never gets a new socket: a later `listen`, whatever it reports, asks the handle that is
  -- closing.
  pub listens_and_stops :
      (uv : Uv) (host : List ℕ) (port : ℕ) (s : Server V)
      → let t = listen uv host port s in
        let r = stop_listening s in
        ((t.is_listening ≡ (
            s.is_listening
            || (succeeds (uv.tcp_bind s.history)
                && succeeds (uv.listen (Event.bind host port ∷ s.history)))))
          × (t ≡ (if s.is_listening then s else t))
          × (closes t.history ≡ closes s.history))
        × ((r.is_listening ≡ false)
            × (closes r.history
                ≡ closes s.history + (if s.is_listening && not s.socket_closing then 1 else 0))
            × (stop_listening r ≡ r))
        × ((listen uv host port r).socket_closing ≡ (s.is_listening || s.socket_closing))
  unfolding listen stop_listening
  listens_and_stops uv host port s =
      let (up, _, _, quiet) = listen_lem uv host port s in
      ((up, ground arith, quiet), stop_listening_lem s, ground arith)
