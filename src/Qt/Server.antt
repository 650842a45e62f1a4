-- ===== src/Qt/Server.antt =====
-- qt_wrapper/src/qt_server.cpp: `QtServer`. As with the client, the wrapped server is a parameter, with
-- states `S`; its operations may throw, and then give the text of the exception.
use Prim.Native.String.{String, ◌++◌ as ◌<>◌}
use libuv_net.Base.{ℕ, Bool, true, false, List, [], ◌∷◌, ◌++◌, Option, none, some}

pub record ServerApi (S : Type 0) : Type 0 where
  pub start : String → ℕ → S → Option String × S
  pub stop : S → Option String × S
  pub broadcast : List ℕ → S → Option String × S
  pub send_to : ℕ → List ℕ → S → Option String × S

pub data Signal : Type 0 where
  session_connected session_disconnected : (session_id : ℕ) → Signal
  message_received : (session_id : ℕ) → List ℕ → Signal
  error : String → Signal

pub record QtServer (S : Type 0) : Type 0 where
  pub server : S
  pub signals : List Signal

module _ {S : Type 0} where
  abbrev pub emit : Signal → QtServer S → QtServer S
  emit signal q = record q { signals = q.signals ++ signal ∷ [] }

  -- The constructor, around a new server
  unfoldable pub new : S → QtServer S
  new server = record { server = server; signals = [] }

  unfoldable pub handle_new_session : ℕ → QtServer S → QtServer S
  handle_new_session session_id q = emit (session_connected session_id) q

  unfoldable pub handle_session_closed : ℕ → QtServer S → QtServer S
  handle_session_closed session_id q = emit (session_disconnected session_id) q

  unfoldable pub handle_message : ℕ → List ℕ → QtServer S → QtServer S
  handle_message session_id message q = emit (message_received session_id message) q

  -- What the catch clauses do: `label` is the text before "%1".
  abbrev pub report : String → Option String × S → QtServer S → QtServer S
  report label (none, s) q = record q { server = s }
  report label (some what, s) q = emit (error (label <> what)) (record q { server = s })

  abbrev returned : Option String × S → Bool
  returned (none, s) = true
  returned (some what, s) = false

module _ {S : Type 0} (api : ServerApi S) where
  unfoldable pub start : String → ℕ → QtServer S → Bool × QtServer S
  start host port q =
      let r = api.start host port q.server in (returned r, report "Failed to start server: " r q)

  -- The destructor does the same.
  unfoldable pub stop : QtServer S → QtServer S
  stop q = report "Failed to stop server: " (api.stop q.server) q

  unfoldable pub broadcast : List ℕ → QtServer S → QtServer S
  broadcast data_bytes q =
      report "Failed to broadcast message: " (api.broadcast data_bytes q.server) q

  unfoldable pub send_to : ℕ → List ℕ → QtServer S → QtServer S
  send_to session_id data_bytes q =
      report "Failed to send message: " (api.send_to session_id data_bytes q.server) q
