-- ===== src/Client/MemoryTests.antt =====
-- A client that connects, whereupon its handler sends a packet, and reads a byte.
use libuv_net.Base.{
  ℕ, ◌+◌, ◌^◌, ◌<◌, ◌≡◌, refl, true, false, none, some, List, [], ◌∷◌, foldl, length, arith,
}
use libuv_net.Base.Outcome.{returns, Holds, ◌>>=◌}
use libuv_net.Packet.{header_size, serialize, deserialize}
use libuv_net.Framing.Waiting.{IsWaiting}
use libuv_net.Uv.{
  Event, done, received, requests_made, requests_deleted, requests_accepted, buffers_made,
  buffers_deleted,
}
use libuv_net.Samples.{little_endian, willing, greeting}
use libuv_net.Client.Defs.{
  Client, Link, calls_send, calls_connect, new, run_call, on_write, on_alloc,
}
use libuv_net.Client.Callbacks.{on_connect}
use libuv_net.Client.Receive.{append_to_buffer, on_read, message_size}
use libuv_net.Client.Refinement.{client}
use libuv_net.Client.Lifecycle.{
  Input, alloc, connected, read, written, api, Setup, set_up, step, run,
}
use libuv_net.Client.Connection.{IsSane, run-IsSane}
use libuv_net.Client.Requests.{ended, asked, client_memory_run}
use libuv_net.Client.Bounds.{client_buffer_bounds}

abbrev idle : Link ℕ
idle = record {
  is_connected = false;
  is_connecting = false;
  socket_closing = false;
  timer_active = false;
  last_heartbeat = 0;
  joinable = false;
  should_stop = false;
  connect_handler = none;
  disconnect_handler = none;
  packet_handlers = [];
  default_packet_handler = none;
  interceptors = [];
  history = Event.timer_init ∷ [];
}

made : new ℕ true [] ≡ returns (client idle [])
unfolding new
made = refl

-- Sends a greeting as soon as the connection stands.
abbrev polite : Setup ℕ
polite = record {
  connect_handler = some (record { name = 2; react = calls_send greeting ∷ [] });
  disconnect_handler = none;
  packet_handlers = [];
  default_packet_handler = none;
  interceptors = [];
}

abbrev day : List (Input ℕ)
day =
    api (calls_connect [] 80)
    ∷ connected done
    ∷ written done
    ∷ alloc 64
    ∷ read (received (1 ∷ []))
    ∷ []

abbrev later : Client ℕ
later = set_up polite (
    client
      (record idle {
        is_connected = true;
        timer_active = true;
        last_heartbeat = willing.clock [];
        history =
            Event.new_buffer 64
            ∷ Event.delete_request
            ∷ Event.write (serialize little_endian greeting)
            ∷ Event.new_request
            ∷ Event.call_connect 2
            ∷ Event.timer_start
            ∷ Event.clock_read
            ∷ Event.read_start
            ∷ Event.delete_request
            ∷ Event.connect_request [] 80
            ∷ Event.new_request
            ∷ Event.tcp_init
            ∷ idle.history;
      })
      (1 ∷ []))

day_ends : run willing (set_up polite (client idle [])) day ≡ returns later
unfolding step on_read run_call on_write on_alloc on_connect append_to_buffer message_size
    deserialize
day_ends = refl

client_memory_run_example :
    (requests_made later.history + foldl ended 0 day
      ≡ requests_deleted later.history + requests_accepted willing later.history)
    × (buffers_made later.history ≡ foldl asked 0 day)
    × (buffers_deleted later.history ≡ 0)
client_memory_run_example =
    client_memory_run willing (client idle []) later polite day made day_ends

client_buffer_bounds_example :
    IsWaiting willing.abi later.buffer × (length later.buffer < header_size + 2 ^ 32)
client_buffer_bounds_example =
    client_buffer_bounds willing [] (client idle []) later polite day made (ground arith) day_ends

run-IsSane_example :
    Holds
      (λ (t : Client ℕ). IsSane t.link)
      (new ℕ true [] >>= λ s. run willing (set_up polite s) day)
run-IsSane_example = run-IsSane willing true [] polite day
