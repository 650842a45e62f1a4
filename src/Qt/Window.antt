-- ===== src/Qt/Window.antt =====
-- example/mainwindow.cpp and example/mainwindow.h: `MainWindow`. Its two ends are parameters, with
-- states `C` and `S`, since it calls operations (`initialize`, `isRunning`) and connects signals
-- (`started`, `stopped`) that the wrappers of qt_wrapper do not have; so is what it takes from Qt.
use Prim.Native.String.{String, ◌++◌ as ◌<>◌}
use libuv_net.Base.{
  ℕ, Bool, true, false, List, [], ◌∷◌, ◌++◌, Option, none, some, foldl, if◌then◌else◌,
}
use libuv_net.Qt.Client.{Signal}
use libuv_net.Qt.Client

pub record ClientEnd (C : Type 0) : Type 0 where
  pub initialize : C → C
  pub connect : String → ℕ → C → C
  pub disconnect : C → C
  pub send : List ℕ → C → C
  pub is_connected : C → Bool

pub record ServerEnd (S : Type 0) : Type 0 where
  pub initialize : S → S
  pub start : String → ℕ → S → S
  pub stop : S → S
  pub is_running : S → Bool

-- toUShort, toUtf8, fromUtf8
pub record Toolkit : Type 0 where
  pub to_ushort : String → Option ℕ
  pub to_utf8 : String → List ℕ
  pub from_utf8 : List ℕ → String

pub data ServerSignal : Type 0 where
  started stopped : ServerSignal
  error : String → ServerSignal
  message_received : List ℕ → ServerSignal

pub record Window (C S : Type 0) : Type 0 where
  pub client : C
  pub server : S
  pub log : List String  -- oldest first
  pub warnings : List String
  pub host : String
  pub port : String
  pub message : String
  pub connect_enabled : Bool
  pub disconnect_enabled : Bool
  pub send_enabled : Bool
  pub start_enabled : Bool
  pub stop_enabled : Bool

module _ {C S : Type 0} where
  abbrev append : String → Window C S → Window C S
  append line w = record w { log = w.log ++ line ∷ [] }

  abbrev warn : Window C S → Window C S
  warn w = record w { warnings = w.warnings ++ "Invalid port number" ∷ [] }

  unfoldable pub handle_client_connected : Window C S → Window C S
  handle_client_connected w = record (append "Client connected" w) {
    connect_enabled = false;
    disconnect_enabled = true;
    send_enabled = true;
  }

  unfoldable pub handle_client_disconnected : Window C S → Window C S
  handle_client_disconnected w = record (append "Client disconnected" w) {
    connect_enabled = true;
    disconnect_enabled = false;
    send_enabled = false;
  }

  unfoldable pub handle_client_error : String → Window C S → Window C S
  handle_client_error text w = append ("Client error: " <> text) w

  unfoldable pub handle_server_started : Window C S → Window C S
  handle_server_started w = record (append "Server started" w) {
    start_enabled = false;
    stop_enabled = true;
  }

  unfoldable pub handle_server_stopped : Window C S → Window C S
  handle_server_stopped w = record (append "Server stopped" w) {
    start_enabled = true;
    stop_enabled = false;
  }

  unfoldable pub handle_server_error : String → Window C S → Window C S
  handle_server_error text w = append ("Server error: " <> text) w

module _ {C S : Type 0} (qt : Toolkit) where
  unfoldable pub handle_client_message : List ℕ → Window C S → Window C S
  handle_client_message bytes w = append ("Received: " <> qt.from_utf8 bytes) w

  unfoldable pub handle_server_message : List ℕ → Window C S → Window C S
  handle_server_message bytes w = append ("Server received: " <> qt.from_utf8 bytes) w

  -- The slots that `setupConnections` gives to the signals of the two ends.
  unfoldable pub on_client_signal : Signal → Window C S → Window C S
  unfolding handle_client_connected handle_client_disconnected handle_client_error
      handle_client_message
  on_client_signal Client.connected w = handle_client_connected w
  on_client_signal Client.disconnected w = handle_client_disconnected w
  on_client_signal (Client.error text) w = handle_client_error text w
  on_client_signal (Client.message_received bytes) w = handle_client_message bytes w

  unfoldable pub on_server_signal : ServerSignal → Window C S → Window C S
  unfolding handle_server_started handle_server_stopped handle_server_error handle_server_message
  on_server_signal started w = handle_server_started w
  on_server_signal stopped w = handle_server_stopped w
  on_server_signal (error text) w = handle_server_error text w
  on_server_signal (message_received bytes) w = handle_server_message bytes w

module _ {C S : Type 0} (qt : Toolkit) (ce : ClientEnd C) (se : ServerEnd S) where
  -- `setupUi` and the constructor
  unfoldable pub new : C → S → Window C S
  new client server = record {
    client = ce.initialize client;
    server = se.initialize server;
    log = [];
    warnings = [];
    host = "127.0.0.1";
    port = "8080";
    message = "";
    connect_enabled = true;
    disconnect_enabled = false;
    send_enabled = false;
    start_enabled = true;
    stop_enabled = false;
  }

  -- `~MainWindow`
  unfoldable pub destroy : Window C S → Window C S
  destroy w = record w {
    client = if ce.is_connected w.client then ce.disconnect w.client else w.client;
    server = if se.is_running w.server then se.stop w.server else w.server;
  }

  unfoldable pub on_connect_clicked : Window C S → Window C S
  on_connect_clicked w = elim (qt.to_ushort w.port) [
    | none ↦ warn w
    | some port ↦ record w { client = ce.connect w.host port w.client }
  ]

  unfoldable pub on_disconnect_clicked : Window C S → Window C S
  on_disconnect_clicked w = record w { client = ce.disconnect w.client }

  unfoldable pub on_send_clicked : Window C S → Window C S
  on_send_clicked w = record w { client = ce.send (qt.to_utf8 w.message) w.client; message = "" }

  unfoldable pub on_start_server_clicked : Window C S → Window C S
  on_start_server_clicked w = elim (qt.to_ushort w.port) [
    | none ↦ warn w
    | some port ↦ record w { server = se.start w.host port w.server }
  ]

  unfoldable pub on_stop_server_clicked : Window C S → Window C S
  on_stop_server_clicked w = record w { server = se.stop w.server }

-- What a user does, or an end signals. A button that is not enabled is never clicked.
pub data Input : Type 0 where
  types_host types_port types_message : String → Input
  clicks_connect clicks_disconnect clicks_send clicks_start clicks_stop : Input
  client_signals : Signal → Input
  server_signals : ServerSignal → Input

module _ {C S : Type 0} (qt : Toolkit) (ce : ClientEnd C) (se : ServerEnd S) where
  unfoldable pub step : Window C S → Input → Window C S
  unfolding on_connect_clicked on_disconnect_clicked on_send_clicked on_start_server_clicked
      on_stop_server_clicked on_client_signal on_server_signal
  step w (types_host text) = record w { host = text }
  step w (types_port text) = record w { port = text }
  step w (types_message text) = record w { message = text }
  step w clicks_connect = if w.connect_enabled then on_connect_clicked qt ce se w else w
  step w clicks_disconnect = if w.disconnect_enabled then on_disconnect_clicked qt ce se w else w
  step w clicks_send = if w.send_enabled then on_send_clicked qt ce se w else w
  step w clicks_start = if w.start_enabled then on_start_server_clicked qt ce se w else w
  step w clicks_stop = if w.stop_enabled then on_stop_server_clicked qt ce se w else w
  step w (client_signals signal) = on_client_signal qt signal w
  step w (server_signals signal) = on_server_signal qt signal w

  abbrev pub run : Window C S → List Input → Window C S
  run = foldl step
