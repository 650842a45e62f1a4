-- ===== src/Client/Tests.antt =====
-- Runs of a client on concrete events.
use libuv_net.Base.{
  ap, sym, ◌∙◌, some, Bool-cases, inl, inr, ◌==◌, All, ℕ, ◌+◌, ◌*◌, ◌^◌, ◌<◌, ◌≡◌, refl, true,
  false, not, ◌&&◌, ◌||◌, List, [], ◌∷◌, ◌++◌, none, take, drop, length, if◌then◌else◌, arith,
}
use libuv_net.Base.Outcome.{returns, ◌>>=◌, foldm}
use libuv_net.Base.Map.{lookup}
use libuv_net.Interceptor.{get_interceptor}
use libuv_net.Packet.RoundTrip.{All-serialize}
use libuv_net.Packet.{IsByte, read_header, deserialize, Packet, serialize, header_bytes}
use libuv_net.Packet.PacketType
use libuv_net.Packet.Words.{word_bytes, word_of}
use libuv_net.Framing.{frames}
use libuv_net.Framing.Loop.{run_frames}
use libuv_net.Framing.Stream.{stream}
use libuv_net.Framing.Chunks.{join, feed}
use libuv_net.Uv.{
  Event, error, received, closes, writes, requests_accepted, requests_made, requests_deleted,
}
use libuv_net.Samples.{
  little_endian, little_endian-IsByteAbi, willing, greeting, greeting-IsWire, beat, beat-IsWire,
}
use libuv_net.Client.Defs.{
  PacketHandler, Link, Client, calls_disconnect, connect, disconnect, on_heartbeat_timer,
}
use libuv_net.Client.Callbacks.{reading}
use libuv_net.Client.Receive.{message_size, append_to_buffer, handle_packet, on_read}
use libuv_net.Client.Refinement.{client, handle, append_to_buffer-frames, client-feed-stream}
use libuv_net.Client.Lifecycle.{Input, read, step, run}
use libuv_net.Client.Transitions.{can_connect, connects_and_disconnects}
use libuv_net.Client.Robust.{tables, handler_for, HandlersReturn}
use libuv_net.Client.Total.{client_run_returns}
use libuv_net.Interceptor.Calm.{IsCalm, IsCalmOut}
use libuv_net.Client.Heartbeat.{heartbeat_always_expires}

abbrev idle : Link ℕ
idle = record {
  is_connected = false;
  is_connecting = false;
  socket_closing = false;
  timer_active = false;
  last_heartbeat = 0;
  joinable = false;
  should_stop = false;
  connect_handler = none;
  disconnect_handler = none;
  packet_handlers = [];
  default_packet_handler = none;
  interceptors = [];
  history = Event.timer_init ∷ [];
}

-- Connected at the time 100 seconds; a text makes it hang up.
-- Answers every text by ending the connection.
abbrev leaving : PacketHandler
leaving = record { name = 1; react = λ p. calls_disconnect ∷ []; ends = λ packet. returns tt }

abbrev up : Link ℕ
up = record idle {
  is_connected = true;
  timer_active = true;
  last_heartbeat = 100 * 10 ^ 9;
  packet_handlers = (PacketType.text, leaving) ∷ [];
}

abbrev sent : List Packet
sent = greeting ∷ beat ∷ []

abbrev bytes : List ℕ
bytes = stream little_endian sent ++ take 1 (serialize little_endian greeting)

cut_in_two : join (take 5 bytes ∷ drop 5 bytes ∷ []) ≡ bytes
unfolding serialize header_bytes word_bytes
cut_in_two = refl

one : 1 < length (serialize little_endian greeting)
unfolding serialize header_bytes word_bytes
one = omega arith

client-feed-stream_example :
    feed (append_to_buffer willing) (client up []) (take 5 bytes ∷ drop 5 bytes ∷ []) ≡ (
      foldm (handle willing) up sent >>= λ d.
      returns (client d (take 1 (serialize little_endian greeting))))
client-feed-stream_example =
    client-feed-stream willing (take 5 bytes ∷ drop 5 bytes ∷ []) up sent greeting 1
      little_endian-IsByteAbi (greeting-IsWire, (beat-IsWire, tt)) greeting-IsWire one cut_in_two

append_to_buffer-frames_example :
    append_to_buffer willing (0 ∷ 0 ∷ 0 ∷ 0 ∷ []) (client up (9 ∷ 0 ∷ 0 ∷ 0 ∷ 0 ∷ 0 ∷ 0 ∷ 0 ∷ []))
    ≡ run_frames client
        (handle willing)
        up
        (frames little_endian (9 ∷ 0 ∷ 0 ∷ 0 ∷ 0 ∷ 0 ∷ 0 ∷ 0 ∷ 0 ∷ 0 ∷ 0 ∷ 0 ∷ []))
append_to_buffer-frames_example =
    append_to_buffer-frames willing (0 ∷ 0 ∷ 0 ∷ 0 ∷ []) up (9 ∷ 0 ∷ 0 ∷ 0 ∷ 0 ∷ 0 ∷ 0 ∷ 0 ∷ [])
      (ground arith)

connects_and_disconnects_example :
    let r = connect willing [] 80 idle in
    let can = can_connect willing idle in
    let m = disconnect idle in
    let n = reading willing (error 22) idle in
    ((r.0 ≡ can)
      × (r.1.is_connected ≡ idle.is_connected)
      × (r.1.is_connecting ≡ (can || idle.is_connecting))
      × (requests_accepted willing r.1.history
          ≡ requests_accepted willing idle.history + (if can then 1 else 0))
      × (requests_made r.1.history + requests_deleted idle.history
          ≡ requests_deleted r.1.history + requests_made idle.history + (if can then 1 else 0)))
    × ((m.is_connected ≡ false)
        × (m.is_connecting ≡ false)
        × (closes m.history
            ≡ closes idle.history
              + (if (idle.is_connected || idle.is_connecting) && not idle.socket_closing
                  then 1
                  else 0))
        × (disconnect m ≡ m))
    × ((n.is_connected ≡ false)
        × (n.is_connecting ≡ false)
        × (closes n.history
            ≡ closes idle.history
              + (if idle.is_connected && not idle.socket_closing then 1 else 0)))
connects_and_disconnects_example = connects_and_disconnects willing [] 80 22 idle

-- The connection is asked for.
goes_out : can_connect willing idle ≡ true
goes_out = refl

-- A heartbeat packet comes in, and does not help.
abbrev beaten : List (Input ℕ)
beaten = read (received (serialize little_endian beat)) ∷ []

beaten_ends : run willing (client up []) beaten ≡ returns (client up [])
unfolding step on_read append_to_buffer serialize header_bytes word_bytes message_size read_header
    word_of deserialize handle_packet get_interceptor lookup
beaten_ends = refl

heartbeat_always_expires_example :
    let d = on_heartbeat_timer willing up in
    (d.is_connected ≡ false)
    × (d.is_connecting ≡ false)
    × (d.socket_closing ≡ true)
    × (d.timer_active ≡ false)
    × (closes d.history ≡ closes up.history + (if up.socket_closing then 0 else 1))
    × (writes d.history ≡ writes up.history)
heartbeat_always_expires_example =
    heartbeat_always_expires willing (client up []) (client up []) beaten (refl, tt) beaten_ends
      refl (omega arith)

calm : IsCalm (idle).interceptors
unfolding get_interceptor lookup
calm type bytes i found = absurd (cc found)

calm_out : IsCalmOut (idle).interceptors
unfolding get_interceptor lookup
calm_out type v i found = absurd (cc found)

finds :
    (p : Packet)
    → handler_for (tables up) p ≡ (if PacketType.text == p.type then some leaving else none)
unfolding lookup
finds p = ground arith

quiet : HandlersReturn (tables up)
quiet p h found =
    let listed = sym (finds p) ∙ found in
    elim (Bool-cases (PacketType.text == p.type)) [
      | inl e ↦
          let same : leaving ≡ h = cc (rw e at listed) in
          ap (λ (j : PacketHandler). j.ends p) (sym same)
      | inr e ↦ absurd (cc (rw e at listed))
    ]

beat_bytes : All IsByte (serialize little_endian beat)
beat_bytes = All-serialize little_endian little_endian-IsByteAbi beat beat-IsWire

-- A text, whose handler disconnects, and then a heartbeat.
abbrev answered : List (Input ℕ)
answered = read (received (serialize little_endian greeting)) ∷ beaten

client_run_returns_example : (t : Client ℕ) × (run willing (client up []) answered ≡ returns t)
client_run_returns_example =
    client_run_returns willing (tables up) calm calm_out quiet (client up []) answered refl tt (
      All-serialize little_endian little_endian-IsByteAbi greeting greeting-IsWire,
      (beat_bytes, tt),
    )
