-- ===== src/Qt/Tests.antt =====
-- A window whose ends record the port that they were last given.
use libuv_net.Base.{ℕ, ◌≡◌, refl, true, false, List, [], ◌∷◌, none, some, foldl, map}
use libuv_net.Qt.Client
use libuv_net.Qt.Client.{QtClient, Signal}
use libuv_net.Qt.Server.{ServerApi}
use libuv_net.Qt.Window
use libuv_net.Qt.Window.{
  Toolkit, ClientEnd, ServerEnd, Window, started, Input, clicks_connect, clicks_disconnect,
  clicks_send, clicks_start, clicks_stop, client_signals, server_signals, new, run,
}
use libuv_net.Qt.Buttons.{Shows, buttons_show}
use libuv_net.Qt.Signals.{
  called, on_connect, on_message, window_follows_client, Operation, start, stop, broadcast, send_to,
  throws,
}

abbrev toolkit : Toolkit
toolkit = record {
  to_ushort = λ text. some 8080;
  to_utf8 = λ text. 104 ∷ 105 ∷ [];
  from_utf8 = λ bytes. "hi";
}

abbrev client_end : ClientEnd ℕ
client_end = record {
  initialize = λ c. 0;
  connect = λ host port c. port;
  disconnect = λ c. 0;
  send = λ bytes c. c;
  is_connected = λ c. true;
}

abbrev server_end : ServerEnd ℕ
server_end = record {
  initialize = λ s. 0;
  start = λ host port s. port;
  stop = λ s. 0;
  is_running = λ s. true;
}

abbrev inputs : List Input
inputs =
    clicks_connect
    ∷ client_signals Client.connected
    ∷ clicks_send
    ∷ clicks_start
    ∷ server_signals started
    ∷ []

abbrev window : Window ℕ ℕ
window = new toolkit client_end server_end 7 7

buttons_show_example : Shows true true (run toolkit client_end server_end window inputs)
buttons_show_example = buttons_show toolkit client_end server_end 7 7 inputs

asked : (run toolkit client_end server_end window inputs).client ≡ 8080
unfolding new Window.step
asked = refl

abbrev wrapper : QtClient ℕ
wrapper = Client.new 5

window_follows_client_example : Shows true false (
    run toolkit client_end server_end window (
      map client_signals
        (foldl called wrapper (on_connect false ∷ on_connect true ∷ on_message [] ∷ [])).signals))
window_follows_client_example =
    window_follows_client toolkit client_end server_end 5 7 7
      (on_connect false ∷ on_connect true ∷ on_message [] ∷ [])

-- A server that cannot be started, and counts what it is asked.
abbrev failing : ServerApi ℕ
failing = record {
  start = λ host port s. (some "address in use", s);
  stop = λ s. (none, 0);
  broadcast = λ bytes s. (none, s);
  send_to = λ session_id bytes s. (some "no such session", s);
}

abbrev operations : List Operation
operations = start "127.0.0.1" 8080 ∷ broadcast [] ∷ send_to 1 [] ∷ stop ∷ []

twice : throws failing operations 3 ≡ 2
twice = refl
