-- ===== src/Session/Lifecycle.antt =====
-- The session as libuv and its owner drive it: the callbacks of src/session.cpp and the public
-- calls, one at a time on the loop's thread.
use libuv_net.Base.{ℕ, List, Option}
use libuv_net.Base.Map.{Map}
use libuv_net.Interceptor.{Manager}
use libuv_net.Base.Outcome.{Outcome, returns, ◌>>=◌, foldm}
use libuv_net.Uv.{Uv, Status, Incoming}
use libuv_net.Session.Defs.{
  Call, PacketHandler, ReadHandler, Session, on_conn, start, send_data, on_write, on_close,
  on_alloc, on_heartbeat_timer, run_call,
}
use libuv_net.Session.Receive.{on_read}

-- What can happen to a session once it is set up.
pub data Input (V : Type 0) : Type 0 where
  -- on_alloc, on_read, on_write, on_close, on_heartbeat_timer
  alloc : (size : ℕ) → Input V
  read : Incoming → Input V
  written : Status → Input V
  closed timer : Input V
  -- start, send_data, and send, stop, close
  started : Input V
  send_value : (type : ℕ) → V → Input V
  api : Call → Input V

-- The handlers and interceptors that a session is given before anything happens to it.
pub record Setup (V : Type 0) : Type 0 where
  pub packet_handlers : Map PacketHandler
  pub default_packet_handler : Option PacketHandler
  pub interceptors : Manager V
  pub close_handler : Option ℕ
  pub read_handler : Option ReadHandler

abbrev pub set_up : {V : Type 0} → Setup V → Session V → Session V
set_up x s =
    on_conn
      (λ c. record c {
        packet_handlers = x.packet_handlers;
        default_packet_handler = x.default_packet_handler;
        interceptors = x.interceptors;
        close_handler = x.close_handler;
        read_handler = x.read_handler;
      })
      s

module _ {V : Type 0} (uv : Uv) where
  unfoldable pub step : Session V → Input V → Outcome (Session V)
  step s (alloc size) = returns (on_conn (on_alloc size) s)
  step s (read incoming) = on_read uv incoming s
  step s (written status) = returns (on_conn (on_write status) s)
  step s closed = returns (on_conn on_close s)
  step s timer = returns (on_conn (on_heartbeat_timer uv) s)
  step s started = returns (on_conn (start uv) s)
  step s (send_value type v) = send_data uv type v s.conn >>= λ c. returns (record s { conn = c })
  step s (api x) = returns (on_conn (run_call uv x) s)

  abbrev pub run : Session V → List (Input V) → Outcome (Session V)
  run = foldm step
