-- ===== src/Client/Defs.antt =====
-- src/client.cpp and include/libuv_net/client.hpp: the state, and all that does not read packets.
use libuv_net.Base.{
  ℕ, ◌-◌, ◌/◌, ◌^◌, Bool, true, false, not, ◌&&◌, ◌||◌, List, [], ◌∷◌, Option, none, some, ltb,
  if◌then◌else◌,
}
use libuv_net.Base.Outcome.{Outcome, returns, throws, ◌>>=◌}
use libuv_net.Base.Map.{Map, insert}
use libuv_net.Packet.{Packet, packet_of, serialize}
use libuv_net.Packet.PacketType
use libuv_net.Interceptor.{Interceptor, Manager, add_interceptor, get_interceptor}
use libuv_net.Uv.{Uv, Status, done, error, Event}

-- HEARTBEAT_TIMEOUT_MS
abbrev pub heartbeat_timeout_ms : ℕ
heartbeat_timeout_ms = 90000

-- What a handler calls on its client.
pub data Call : Type 0 where
  calls_send : Packet → Call
  calls_connect : (host : List ℕ) → (port : ℕ) → Call
  calls_disconnect : Call

-- A handler makes its calls, and then it returns, throws or never returns, as `ends` says. An empty
-- `std::function` makes none and throws.
pub record PacketHandler : Type 0 where
  pub name : ℕ
  pub react : Packet → List Call
  pub ends : Packet → Outcome (Unit {0})

-- A handler of the connection or the disconnection.
pub record Handler : Type 0 where
  pub name : ℕ
  pub react : List Call

pub record Link (V : Type 0) : Type 0 where
  pub is_connected : Bool
  pub is_connecting : Bool
  pub socket_closing : Bool  -- uv_is_closing(&socket_)
  pub timer_active : Bool  -- heartbeat_timer_ is started
  pub last_heartbeat : ℕ  -- nanoseconds
  pub joinable : Bool  -- loop_thread_.joinable()
  pub should_stop : Bool
  pub connect_handler : Option Handler
  pub disconnect_handler : Option Handler
  pub packet_handlers : Map PacketHandler
  pub default_packet_handler : Option PacketHandler
  pub interceptors : Manager V
  pub history : List Event

pub record Client (V : Type 0) : Type 0 where
  pub link : Link V
  pub open link use *
  pub buffer : List ℕ

module _ {V : Type 0} where
  abbrev pub emit : Event → Link V → Link V
  emit e l = record l { history = e ∷ l.history }

  -- A call on the object, which leaves its buffer alone.
  abbrev pub on_link : (Link V → Link V) → Client V → Client V
  on_link f c = record c { link = f c.link }

-- The constructor; `created` says whether `uv_loop_new` gave a loop. The socket is not initialised.
unfoldable pub new : (V : Type 0) → Bool → List Event → Outcome (Client V)
new V false history = throws
new V true history = returns (record {
  link = record {
    is_connected = false;
    is_connecting = false;
    socket_closing = false;
    timer_active = false;
    last_heartbeat = 0;
    joinable = false;
    should_stop = false;
    connect_handler = none;
    disconnect_handler = none;
    packet_handlers = [];
    default_packet_handler = none;
    interceptors = [];
    history = Event.timer_init ∷ history;
  };
  buffer = [];
})

module _ {V : Type 0} where
  unfoldable pub set_connect_handler : Handler → Link V → Link V
  set_connect_handler h l = record l { connect_handler = some h }

  unfoldable pub set_disconnect_handler : Handler → Link V → Link V
  set_disconnect_handler h l = record l { disconnect_handler = some h }

  unfoldable pub set_packet_handler : ℕ → PacketHandler → Link V → Link V
  set_packet_handler type h l = record l { packet_handlers = insert type h l.packet_handlers }

  unfoldable pub set_default_packet_handler : PacketHandler → Link V → Link V
  set_default_packet_handler h l = record l { default_packet_handler = some h }

  unfoldable pub add_client_interceptor : Interceptor V → Link V → Link V
  add_client_interceptor i l = record l { interceptors = add_interceptor i l.interceptors }

  unfoldable pub stop_heartbeat : Link V → Link V
  stop_heartbeat l = emit Event.timer_stop (record l { timer_active = false })

  -- The new thread runs the loop until it sees `should_stop_`.
  unfoldable pub start : Link V → Bool × Link V
  start l =
      if l.joinable then (false, l) else (true, record l { should_stop = false; joinable = true })

  -- Returns when the thread has ended.
  unfoldable pub stop : Link V → Link V
  unfolding stop_heartbeat
  stop l =
      if not l.joinable
      then l
      else stop_heartbeat (record l { should_stop = true; joinable = false })

  close_socket : Link V → Link V
  close_socket l =
      if not l.socket_closing then emit Event.close (record l { socket_closing = true }) else l

  unfoldable pub disconnect : Link V → Link V
  unfolding close_socket stop_heartbeat
  disconnect l =
      if not l.is_connected && not l.is_connecting
      then l
      else stop_heartbeat (record (close_socket l) { is_connected = false; is_connecting = false })

  -- `~Client`
  unfoldable pub destroy : Link V → Link V
  unfolding stop disconnect
  destroy l = disconnect (stop l)

  -- The allocation callback that `on_connect` hands to libuv.
  unfoldable pub on_alloc : ℕ → Link V → Link V
  on_alloc size l = emit (Event.new_buffer size) l

  unfoldable pub on_write : Status → Link V → Link V
  unfolding disconnect
  on_write done l = emit Event.delete_request l
  on_write (error code) l = disconnect (emit Event.delete_request l)

module _ {V : Type 0} (uv : Uv) where
  -- `uv_tcp_init` makes a handle that is not closing.
  initialized : Status → Link V → Bool × Link V
  initialized done l = (true, record l { socket_closing = false })
  initialized (error code) l = (false, l)

  unfoldable pub init_socket : Link V → Bool × Link V
  unfolding initialized
  init_socket l =
      if uv.is_active l.history
      then (
        false,
        if not l.socket_closing
            then emit Event.close_unheard (record l { socket_closing = true })
            else l,
      )
      else initialized (uv.tcp_init l.history) (emit Event.tcp_init l)

  requested : Status → Link V → Bool × Link V
  requested done l = (true, record l { is_connecting = true })
  requested (error code) l = (false, emit Event.delete_request (record l { is_connecting = false }))

  -- What `uv_ip4_addr` says of the host is not looked at.
  unfoldable pub connect : List ℕ → ℕ → Link V → Bool × Link V
  unfolding init_socket requested
  connect host port l =
      let (ready, m) = init_socket l in
      let asking = emit Event.new_request m in
      if l.is_connected || l.is_connecting
      then (false, l)
      else if not ready
      then (false, m)
      else requested (uv.tcp_connect asking.history) (emit (Event.connect_request host port) asking)

  -- The request is deleted here only if the write fails at once; else `on_write` deletes it.
  after_write : Status → Link V → Link V
  after_write done l = l
  after_write (error code) l = emit Event.delete_request l

  unfoldable pub send : Packet → Link V → Link V
  unfolding after_write
  send packet l =
      let bytes = serialize uv.abi packet in
      let asking = emit Event.new_request l in
      if not l.is_connected
      then l
      else after_write (uv.write asking.history bytes) (emit (Event.write bytes) asking)

  unfoldable pub send_data : ℕ → V → Link V → Outcome (Link V)
  send_data type v l = elim (get_interceptor type l.interceptors) [
    | some i ↦ i.serialize v >>= λ bytes. returns (send (packet_of type bytes) l)
    | none ↦ returns l
  ]

  unfoldable pub start_heartbeat : Link V → Link V
  start_heartbeat l = emit Event.timer_start (
      emit Event.clock_read (record l { last_heartbeat = uv.clock l.history; timer_active = true }))

  unfoldable pub send_heartbeat : Link V → Link V
  unfolding send
  send_heartbeat l = send (packet_of PacketType.heartbeat []) l

  -- The time since the last heartbeat, in milliseconds. The source gets a negative number where the
  -- clock has gone back; that is under the timeout too.
  abbrev pub elapsed_ms : Link V → ℕ
  elapsed_ms l = (uv.clock l.history - l.last_heartbeat) / 10 ^ 6

  unfoldable pub on_heartbeat_timer : Link V → Link V
  unfolding disconnect send_heartbeat
  on_heartbeat_timer l =
      let read = emit Event.clock_read l in
      if ltb heartbeat_timeout_ms (elapsed_ms l) then disconnect read else send_heartbeat read

  unfoldable pub run_call : Call → Link V → Link V
  unfolding send connect disconnect
  run_call (calls_send p) l = send p l
  run_call (calls_connect host port) l = (connect host port l).1
  run_call calls_disconnect l = disconnect l

  unfoldable pub run_calls : List Call → Link V → Link V
  unfolding run_call
  run_calls [] l = l
  run_calls (x ∷ xs) l = run_calls xs (run_call x l)
