-- ===== src/Client/Lifecycle.antt =====
-- The client as libuv and its owner drive it: the callbacks of src/client.cpp and the public calls,
-- one at a time.
use libuv_net.Base.{ℕ, List, Option}
use libuv_net.Base.Map.{Map}
use libuv_net.Interceptor.{Manager}
use libuv_net.Base.Outcome.{Outcome, returns, ◌>>=◌, foldm}
use libuv_net.Uv.{Uv, Status, Incoming}
use libuv_net.Client.Defs.{
  Call, PacketHandler, Handler, Client, on_link, on_alloc, on_write, on_heartbeat_timer, send_data,
  run_call, stop,
}
use libuv_net.Client.Callbacks.{on_connect, on_close}
use libuv_net.Client.Receive.{on_read}

-- What can happen to a client once it is set up.
pub data Input (V : Type 0) : Type 0 where
  -- the allocation callback, on_connect, on_read, on_write, on_close, on_heartbeat_timer
  alloc : (size : ℕ) → Input V
  connected : Status → Input V
  read : Incoming → Input V
  written : Status → Input V
  closed timer : Input V
  -- send_data, stop, and send, connect, disconnect
  send_value : (type : ℕ) → V → Input V
  stopped : Input V
  api : Call → Input V

-- The handlers and interceptors that a client is given before anything happens to it.
pub record Setup (V : Type 0) : Type 0 where
  pub connect_handler : Option Handler
  pub disconnect_handler : Option Handler
  pub packet_handlers : Map PacketHandler
  pub default_packet_handler : Option PacketHandler
  pub interceptors : Manager V

abbrev pub set_up : {V : Type 0} → Setup V → Client V → Client V
set_up x c =
    on_link
      (λ l. record l {
        connect_handler = x.connect_handler;
        disconnect_handler = x.disconnect_handler;
        packet_handlers = x.packet_handlers;
        default_packet_handler = x.default_packet_handler;
        interceptors = x.interceptors;
      })
      c

module _ {V : Type 0} (uv : Uv) where
  unfoldable pub step : Client V → Input V → Outcome (Client V)
  step c (alloc size) = returns (on_link (on_alloc size) c)
  step c (connected status) = returns (on_link (on_connect uv status) c)
  step c (read incoming) = on_read uv incoming c
  step c (written status) = returns (on_link (on_write status) c)
  step c closed = returns (on_link (on_close uv) c)
  step c timer = returns (on_link (on_heartbeat_timer uv) c)
  step c (send_value type v) = send_data uv type v c.link >>= λ l. returns (record c { link = l })
  step c stopped = returns (on_link stop c)
  step c (api x) = returns (on_link (run_call uv x) c)

  abbrev pub run : Client V → List (Input V) → Outcome (Client V)
  run = foldm step
