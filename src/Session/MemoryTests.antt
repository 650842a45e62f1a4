-- ===== src/Session/MemoryTests.antt =====
-- A session that answers a packet, reads one more byte, and then loses its connection.
use libuv_net.Base.{ℕ, ◌+◌, ◌^◌, ◌<◌, ◌≡◌, refl, true, none, List, [], ◌∷◌, foldl, length, arith}
use libuv_net.Base.Outcome.{returns}
use libuv_net.Packet.{header_size, read_header, serialize, deserialize}
use libuv_net.Packet.PacketType
use libuv_net.Packet.Words.{word_of}
use libuv_net.Base.Map.{lookup}
use libuv_net.Interceptor.{get_interceptor}
use libuv_net.Framing.Waiting.{IsWaiting}
use libuv_net.Uv.{
  Event, done, failed, received, inet, Peer, requests_made, requests_deleted, requests_accepted,
  buffers_made, buffers_deleted,
}
use libuv_net.Samples.{little_endian, willing, greeting}
use libuv_net.Session.Defs.{Session, calls_send, accept, run_calls, close, on_write, on_alloc}
use libuv_net.Session.Receive.{
  append_to_buffer, process_buffer, on_read, message_size, handle_packet, call_handler,
}
use libuv_net.Session.Refinement.{session}
use libuv_net.Session.Lifecycle.{Input, alloc, read, written, Setup, set_up, step, run}
use libuv_net.Session.Requests.{ended, asked, filled, session_memory_run}
use libuv_net.Session.Bounds.{session_buffer_bounds}

abbrev localhost : Peer
localhost = inet (49 ∷ []) 8080

-- Answers a text with the same text.
abbrev answering : Setup ℕ
answering = record {
  packet_handlers =
      (
        PacketType.text,
        record { name = 1; react = λ p. calls_send p ∷ []; ends = λ packet. returns tt },
      )
      ∷ [];
  default_packet_handler = none;
  interceptors = [];
  close_handler = none;
  read_handler = none;
}

abbrev fresh : Session ℕ
fresh = set_up answering (accept ℕ 1 localhost [])

-- A greeting and a byte
abbrev day : List (Input ℕ)
day =
    alloc 64
    ∷ read (received (1 ∷ 0 ∷ 0 ∷ 0 ∷ 2 ∷ 0 ∷ 0 ∷ 0 ∷ 7 ∷ 0 ∷ 0 ∷ 0 ∷ 104 ∷ 105 ∷ 1 ∷ []))
    ∷ written done
    ∷ alloc 64
    ∷ read (failed 104)
    ∷ []

abbrev late : Session ℕ
late =
    session
      (record fresh.conn {
        is_closing = true;
        socket_closing = true;
        history =
            Event.close
            ∷ Event.new_buffer 64
            ∷ Event.delete_request
            ∷ Event.delete_buffer
            ∷ Event.write (serialize little_endian greeting)
            ∷ Event.new_request
            ∷ Event.call_packet 1 greeting
            ∷ Event.new_buffer 64
            ∷ fresh.history;
      })
      (1 ∷ [])

day_ends : run willing fresh day ≡ returns late
unfolding step on_read run_calls on_write on_alloc accept append_to_buffer message_size deserialize
    process_buffer handle_packet lookup get_interceptor call_handler close read_header word_of
day_ends = refl

session_memory_run_example :
    (requests_made late.history + foldl ended 0 day
      ≡ requests_deleted late.history + requests_accepted willing late.history)
    × (buffers_made late.history ≡ foldl asked 0 day)
    × (buffers_deleted late.history ≡ foldl filled 0 day)
session_memory_run_example = session_memory_run willing 1 localhost answering day late day_ends

session_buffer_bounds_example :
    IsWaiting willing.abi late.read_buffer × (length late.read_buffer < header_size + 2 ^ 32)
session_buffer_bounds_example =
    session_buffer_bounds willing 1 localhost [] answering day late (ground arith) day_ends
