-- ===== src/Session/Defs.antt =====
-- src/session.cpp and include/libuv_net/session.hpp: the state, and all that does not read packets.
use libuv_net.Base.{
  ℕ, ◌-◌, ◌/◌, ◌^◌, Bool, true, false, not, ◌&&◌, List, [], ◌∷◌, ◌++◌, Option, none, some, ltb,
  if◌then◌else◌,
}
use libuv_net.Base.Outcome.{Outcome, returns, ◌>>=◌}
use libuv_net.Base.Map.{Map, insert}
use libuv_net.Packet.{Packet, packet_of, serialize}
use libuv_net.Packet.PacketType
use libuv_net.Interceptor.{Interceptor, Manager, add_interceptor, get_interceptor}
use libuv_net.Uv.{Uv, Peer, inet, inet6, Status, done, error, ebusy, Event}

-- HEARTBEAT_TIMEOUT_MS
abbrev pub heartbeat_timeout_ms : ℕ
heartbeat_timeout_ms = 90000

-- What a handler calls on its session.
pub data Call : Type 0 where
  calls_send : Packet → Call
  calls_stop calls_close : Call
  -- hands the packet on to a handler of the server
  calls_server : (handler : ℕ) → Packet → Call
  -- `send` on another session, as a handler of the server may: the server does it, see `outbox`
  calls_other : (session : ℕ) → Packet → Call

-- A handler makes its calls, and then it returns, throws or never returns, as `ends` says. An empty
-- `std::function` makes none and throws.
pub record PacketHandler : Type 0 where
  pub name : ℕ
  pub react : Packet → List Call
  pub ends : Packet → Outcome (Unit {0})

pub record ReadHandler : Type 0 where
  pub name : ℕ
  pub react : List ℕ → List Call
  pub ends : List ℕ → Outcome (Unit {0})

pub record Conn (V : Type 0) : Type 0 where
  pub address : ℕ  -- `this`
  pub remote_address : List ℕ
  pub remote_port : Option ℕ  -- `none`: not initialised
  pub is_closing : Bool
  pub socket_closing : Bool  -- uv_is_closing(&socket_)
  pub timer_active : Bool  -- heartbeat_timer_ is started
  pub last_heartbeat : ℕ  -- nanoseconds
  pub packet_handlers : Map PacketHandler
  pub default_packet_handler : Option PacketHandler
  pub interceptors : Manager V
  pub close_handler : Option ℕ
  pub read_handler : Option ReadHandler
  pub alloc_callback : Option ℕ
  pub outbox : List (ℕ × Packet)  -- sends on other sessions to be done, by address
  pub history : List Event

pub record Session (V : Type 0) : Type 0 where
  pub conn : Conn V
  pub open conn use *
  pub read_buffer : List ℕ

module _ {V : Type 0} where
  abbrev pub emit : Event → Conn V → Conn V
  emit e c = record c { history = e ∷ c.history }

  -- A call on the object, which leaves its read buffer alone.
  abbrev pub on_conn : (Conn V → Conn V) → Session V → Session V
  on_conn f s = record s { conn = f s.conn }

-- `Session(loop)`, at `address`
unfoldable pub new : (V : Type 0) → ℕ → List Event → Session V
new V address history = record {
  conn = record {
    address = address;
    remote_address = [];
    remote_port = none;
    is_closing = false;
    socket_closing = false;
    timer_active = false;
    last_heartbeat = 0;
    packet_handlers = [];
    default_packet_handler = none;
    interceptors = [];
    close_handler = none;
    read_handler = none;
    alloc_callback = none;
    outbox = [];
    history = Event.timer_init ∷ Event.tcp_init ∷ history;
  };
  read_buffer = [];
}

with_peer : {V : Type 0} → Peer → Conn V → Conn V
with_peer (inet a p) c = record c { remote_address = a; remote_port = some p }
with_peer (inet6 a p) c = record c { remote_address = a; remote_port = some p }

-- `Session(loop, client)`: accepts the connection that waits on `client`.
unfoldable pub accept : (V : Type 0) → ℕ → Peer → List Event → Session V
unfolding new with_peer
accept V address peer history =
    on_conn
      (λ c.
        with_peer peer
          (record c { history = Event.timer_init ∷ Event.accept ∷ Event.tcp_init ∷ history }))
      (new V address history)

module _ {V : Type 0} where
  unfoldable pub set_packet_handler : ℕ → PacketHandler → Conn V → Conn V
  set_packet_handler type h c = record c { packet_handlers = insert type h c.packet_handlers }

  unfoldable pub set_default_packet_handler : PacketHandler → Conn V → Conn V
  set_default_packet_handler h c = record c { default_packet_handler = some h }

  -- `set_close_callback` has the same body.
  unfoldable pub set_close_handler : ℕ → Conn V → Conn V
  set_close_handler h c = record c { close_handler = some h }

  unfoldable pub set_read_callback : ReadHandler → Conn V → Conn V
  set_read_callback h c = record c { read_handler = some h }

  unfoldable pub set_alloc_callback : ℕ → Conn V → Conn V
  set_alloc_callback h c = record c { alloc_callback = some h }

  unfoldable pub add_session_interceptor : Interceptor V → Conn V → Conn V
  add_session_interceptor i c = record c { interceptors = add_interceptor i c.interceptors }

  unfoldable pub stop_heartbeat : Conn V → Conn V
  stop_heartbeat c = emit Event.timer_stop (record c { timer_active = false })

  unfoldable pub stop : Conn V → Conn V
  unfolding stop_heartbeat
  stop c = stop_heartbeat (emit Event.read_stop c)

  unfoldable pub close : Conn V → Conn V
  close c =
      if not c.is_closing && not c.socket_closing
      then emit Event.close (record c { is_closing = true; socket_closing = true })
      else c

  -- `~Session`
  unfoldable pub destroy : Conn V → Conn V
  unfolding close stop_heartbeat
  destroy c = stop_heartbeat (if c.is_closing then c else close c)

  unfoldable pub on_alloc : ℕ → Conn V → Conn V
  on_alloc size c = elim c.alloc_callback [
    | some h ↦ emit (Event.call_alloc h size) c
    | none ↦ emit (Event.new_buffer size) c
  ]

  unfoldable pub on_write : Status → Conn V → Conn V
  unfolding close
  on_write done c = emit Event.delete_request c
  on_write (error code) c = close (emit Event.delete_request c)

  unfoldable pub on_close : Conn V → Conn V
  on_close c = elim c.close_handler [ some h ↦ emit (Event.call_close h) c | none ↦ c ]

module _ {V : Type 0} (uv : Uv) where
  unfoldable pub start_read : Conn V → Status × Conn V
  start_read c =
      if c.is_closing then (ebusy, c) else (uv.read_start c.history, emit Event.read_start c)

  unfoldable pub start_heartbeat : Conn V → Conn V
  start_heartbeat c = emit Event.timer_start (
      emit Event.clock_read (record c { last_heartbeat = uv.clock c.history; timer_active = true }))

  unfoldable pub start : Conn V → Conn V
  unfolding start_read start_heartbeat
  start c = start_heartbeat (start_read c).1

  -- The request is deleted here only if the write fails at once; else `on_write` deletes it.
  after_write : Status → Conn V → Conn V
  after_write done c = c
  after_write (error code) c = emit Event.delete_request c

  unfoldable pub send : Packet → Conn V → Conn V
  unfolding after_write
  send packet c =
      let bytes = serialize uv.abi packet in
      let requested = emit Event.new_request c in
      if c.is_closing
      then c
      else after_write (uv.write requested.history bytes) (emit (Event.write bytes) requested)

  unfoldable pub send_data : ℕ → V → Conn V → Outcome (Conn V)
  send_data type v c = elim (get_interceptor type c.interceptors) [
    | some i ↦ i.serialize v >>= λ bytes. returns (send (packet_of type bytes) c)
    | none ↦ returns c
  ]

  unfoldable pub send_heartbeat : Conn V → Conn V
  unfolding send
  send_heartbeat c = send (packet_of PacketType.heartbeat []) c

  -- The time since the last heartbeat, in milliseconds. The source gets a negative number where the
  -- clock has gone back; that is under the timeout too.
  abbrev pub elapsed_ms : Conn V → ℕ
  elapsed_ms c = (uv.clock c.history - c.last_heartbeat) / 10 ^ 6

  unfoldable pub on_heartbeat_timer : Conn V → Conn V
  unfolding close send_heartbeat
  on_heartbeat_timer c =
      let read = emit Event.clock_read c in
      if ltb heartbeat_timeout_ms (elapsed_ms c) then close read else send_heartbeat read

  unfoldable pub run_call : Call → Conn V → Conn V
  unfolding send stop close
  run_call (calls_send p) c = send p c
  run_call calls_stop c = stop c
  run_call calls_close c = close c
  run_call (calls_server h p) c = emit (Event.call_server_packet h p) c
  run_call (calls_other b p) c = record c { outbox = c.outbox ++ (b, p) ∷ [] }

  unfoldable pub run_calls : List Call → Conn V → Conn V
  unfolding run_call
  run_calls [] c = c
  run_calls (x ∷ xs) c = run_calls xs (run_call x c)
