-- ===== src/Server/Calls.antt =====
-- The handlers of src/server.cpp, and what they come to as calls on the sessions.
--
-- A handler of the server makes calls on the session that it is given and on the server. Those that
-- come to a `send` on that session are done at once; those that come to a `send` on another one are
-- done when the callback has ended, in order. No session's history or state depends on another's,
-- so this leaves what the code leaves.
use libuv_net.Base.{ℕ, List, [], ◌∷◌, ◌++◌, Option, none, some, map, ◌==◌, if◌then◌else◌}
use libuv_net.Base.Outcome.{Outcome, returns}
use libuv_net.Packet.{Packet}
use libuv_net.Session.Defs.{Call, calls_send, calls_server, calls_other, PacketHandler}
use libuv_net.Server.Id.{find_session}

-- What a handler calls: on the session that it is given, and on the server.
pub data ServerCall : Type 0 where
  calls_session : Call → ServerCall
  calls_broadcast : Packet → ServerCall
  calls_send_to : (id : List ℕ) → Packet → ServerCall

-- A handler of the connection or the end of a session.
pub record SessionHandler : Type 0 where
  pub name : ℕ
  pub react : List ServerCall

-- After its calls a handler returns, throws or never returns, as `ends` says.
pub record ServerHandler : Type 0 where
  pub name : ℕ
  pub react : Packet → List ServerCall
  pub ends : Packet → Outcome (Unit {0})

-- The name of the closures that the server itself gives to a session.
abbrev pub hook_name : ℕ
hook_name = 0

-- `send` on the session at `b`, asked for by a handler that runs on the one at `a`
abbrev pub send_on : ℕ → Packet → ℕ → Call
send_on a packet b = if b == a then calls_send packet else calls_other b packet

-- What a handler that runs on the session at `a` asks of the sessions.
abbrev pub calls_of : ℕ → List ℕ → ServerCall → List Call
calls_of a sessions (calls_session x) = x ∷ []
calls_of a sessions (calls_broadcast packet) = map (send_on a packet) sessions
calls_of a sessions (calls_send_to id packet) = elim (find_session id sessions) [
  | some b ↦ send_on a packet b ∷ []
  | none ↦ []
]

abbrev pub calls_of_all : ℕ → List ℕ → List ServerCall → List Call
calls_of_all a sessions [] = []
calls_of_all a sessions (x ∷ xs) = calls_of a sessions x ++ calls_of_all a sessions xs

abbrev pub hand_on : ℕ → List ℕ → Option ServerHandler → Packet → List Call
hand_on a sessions (some h) packet =
    calls_server h.name packet ∷ calls_of_all a sessions (h.react packet)
hand_on a sessions none packet = []

-- How the closure ends that hands a packet on.
abbrev pub end_of : Option ServerHandler → Packet → Outcome (Unit {0})
end_of (some h) packet = h.ends packet
end_of none packet = returns tt

-- The handler of heartbeats that a session has
abbrev pub no_reaction : PacketHandler
no_reaction = record { name = hook_name; react = λ packet. []; ends = λ packet. returns tt }
