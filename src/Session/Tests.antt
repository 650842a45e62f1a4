-- ===== src/Session/Tests.antt =====
-- Runs of a session on concrete bytes.
use libuv_net.Base.{
  ap, sym, some, ◌∙◌, Bool-cases, inl, inr, All, ◌==◌, ℕ, length, ◌+◌, ◌-◌, ◌*◌, ◌/◌, ◌^◌, ◌<◌, ◌≡◌,
  refl, true, false, List, [], ◌∷◌, ◌++◌, none, take, drop, ltb, if◌then◌else◌, arith,
}
use libuv_net.Base.Outcome.{returns, ◌>>=◌, foldm}
use libuv_net.Packet.{IsByte, Packet, serialize, packet_of, header_bytes}
use libuv_net.Packet.PacketType
use libuv_net.Packet.Words.{word_bytes}
use libuv_net.Base.Map.{lookup, insert}
use libuv_net.Interceptor.{Manager, Interceptor, get_interceptor, add_interceptor}
use libuv_net.Framing.{frames}
use libuv_net.Framing.Loop.{run_frames}
use libuv_net.Framing.Stream.{stream}
use libuv_net.Framing.Chunks.{join, feed}
use libuv_net.Uv.{Uv, done, received, inet, Peer, error, closes, writes}
use libuv_net.Samples.{
  little_endian, little_endian-IsByteAbi, willing, greeting, greeting-IsWire, beat, beat-IsWire,
  braces,
}
use libuv_net.Session.Defs.{
  Conn, Session, PacketHandler, calls_send, calls_close, accept, new, set_packet_handler, on_conn,
  start_heartbeat, heartbeat_timeout_ms, on_heartbeat_timer, add_session_interceptor, run_call,
  on_write, close,
}
use libuv_net.Session.Receive.{append_to_buffer, process_buffer}
use libuv_net.Session.Refinement.{session, handle, process_buffer-frames, session-feed-stream}
use libuv_net.Session.Delivery.{
  tables, handler_for, observe, behind, delivery, deliveries, deliveries_lem,
}
use libuv_net.Session.Lifecycle.{send_value, read, Input, written, timer, api, step, run}
use libuv_net.Session.Closing.{IsConsistent, closed-silent}
use libuv_net.Session.Total.{ReaderReturns, session_run_returns}
use libuv_net.Session.Robust.{HandlersReturn}
use libuv_net.Packet.RoundTrip.{All-serialize}
use libuv_net.Interceptor.Calm.{IsCalm, IsCalmOut}
use libuv_net.Session.Silence.{silent_peer}

-- Answers every text with the same text, and then closes.
abbrev echo : PacketHandler
echo = record {
  name = 1;
  react = λ p. calls_send p ∷ calls_close ∷ [];
  ends = λ packet. returns tt;
}

-- Refuses all content.
abbrev refuser : Interceptor ℕ
refuser = record {
  serialize = λ v. returns (v ∷ []);
  deserialize = λ bytes. returns none;
  type = PacketType.json;
}

abbrev localhost : Peer
localhost = inet (49 ∷ []) 8080

abbrev fresh : Session ℕ
fresh = accept ℕ 1 localhost []

abbrev echoing : Conn ℕ
echoing = add_session_interceptor refuser (set_packet_handler PacketType.text echo fresh.conn)

-- Two packets and the first five bytes of a third, in three reads.
abbrev sent : List Packet
sent = beat ∷ greeting ∷ []

abbrev bytes : List ℕ
bytes = stream little_endian sent ++ take 5 (serialize little_endian beat)

cut_in_three : join (take 3 bytes ∷ take 20 (drop 3 bytes) ∷ drop 20 (drop 3 bytes) ∷ []) ≡ bytes
unfolding serialize header_bytes word_bytes
cut_in_three = refl

five : 5 < length (serialize little_endian beat)
unfolding serialize header_bytes word_bytes
five = omega arith

session-feed-stream_example :
    feed
      (append_to_buffer willing)
      (session echoing [])
      (take 3 bytes ∷ take 20 (drop 3 bytes) ∷ drop 20 (drop 3 bytes) ∷ [])
    ≡ (foldm (handle willing) echoing sent >>= λ d.
        returns (session d (take 5 (serialize little_endian beat))))
session-feed-stream_example =
    session-feed-stream willing
      (take 3 bytes ∷ take 20 (drop 3 bytes) ∷ drop 20 (drop 3 bytes) ∷ []) echoing sent beat 5
      little_endian-IsByteAbi (beat-IsWire, (greeting-IsWire, tt)) beat-IsWire five cut_in_three

-- A header of version 9
abbrev nonsense : List ℕ
nonsense = 9 ∷ 0 ∷ 0 ∷ 0 ∷ 0 ∷ 0 ∷ 0 ∷ 0 ∷ 0 ∷ 0 ∷ 0 ∷ 0 ∷ 77 ∷ []

process_buffer-frames_example :
    process_buffer willing (session echoing nonsense)
    ≡ run_frames session (handle willing) echoing (frames little_endian nonsense)
process_buffer-frames_example =
    process_buffer-frames willing (session echoing nonsense) (ground arith)

-- A text is delivered; a heartbeat and a refused document are not.
deliveries_lem_example :
    observe willing (foldm (handle willing) echoing (beat ∷ greeting ∷ braces ∷ []))
    ≡ (deliveries (tables echoing) (beat ∷ greeting ∷ braces ∷ []) >>= behind willing echoing)
deliveries_lem_example = deliveries_lem willing (beat ∷ greeting ∷ braces ∷ []) echoing

delivered :
    deliveries (tables echoing) (beat ∷ greeting ∷ braces ∷ []) ≡ returns ((1, greeting) ∷ [])
unfolding deliveries delivery add_session_interceptor set_packet_handler accept get_interceptor
    lookup add_interceptor insert
delivered = refl

-- A failed write closes the session; what comes later does not close it again, nor does it write.
abbrev failing : List (Input ℕ)
failing = written (error 32) ∷ timer ∷ api (calls_send greeting) ∷ api calls_close ∷ []

abbrev ended : Session ℕ
ended = on_conn (λ c. on_heartbeat_timer willing (on_write (error 32) c)) fresh

failing_ends : run willing fresh failing ≡ returns ended
unfolding step on_heartbeat_timer run_call on_write accept
failing_ends = refl

abbrev closing : Session ℕ
closing = on_conn close fresh

closing_ends :
    run willing closing (timer ∷ api (calls_send greeting) ∷ [])
    ≡ returns (on_conn (on_heartbeat_timer willing) closing)
unfolding step on_heartbeat_timer run_call accept close
closing_ends = refl

closing_closes : closing.is_closing ≡ true
unfolding close accept
closing_closes = refl

closed-silent_example :
    ((on_conn (on_heartbeat_timer willing) closing).is_closing ≡ true)
    × (writes (on_conn (on_heartbeat_timer willing) closing).history ≡ writes closing.history)
closed-silent_example =
    closed-silent willing closing (on_conn (on_heartbeat_timer willing) closing)
      (timer ∷ api (calls_send greeting) ∷ []) closing_closes closing_ends

-- The clock goes on by 40 seconds with each event.
abbrev ticking : Uv
ticking = record willing { clock = λ history. length history * 40 * 10 ^ 9 }

abbrev begun : Session ℕ
begun = on_conn (start_heartbeat ticking) fresh

begun-IsConsistent : IsConsistent 0 begun.conn
unfolding start_heartbeat accept
begun-IsConsistent = record { agree = refl; once = omega arith }

-- The owner sends a packet, which is written; nothing comes in.
abbrev waiting : Session ℕ
waiting = on_conn (λ c. on_write done (run_call ticking (calls_send greeting) c)) begun

waits : run ticking begun (api (calls_send greeting) ∷ written done ∷ []) ≡ returns waiting
unfolding step
waits = refl

waiting_open : waiting.is_closing ≡ false
unfolding start_heartbeat accept run_call on_write
waiting_open = refl

silent_peer_example :
    let d = on_heartbeat_timer ticking waiting.conn in
    let late =
      ltb heartbeat_timeout_ms ((ticking.clock waiting.history - begun.last_heartbeat) / 10 ^ 6) in
    (d.is_closing ≡ late)
    × (closes d.history ≡ closes waiting.history + (if late then 1 else 0))
    × (writes d.history ≡ (
        if late
        then writes waiting.history
        else serialize ticking.abi (packet_of PacketType.heartbeat []) ∷ writes waiting.history))
    × (d.last_heartbeat ≡ begun.last_heartbeat)
silent_peer_example =
    silent_peer ticking 0 begun waiting (api (calls_send greeting) ∷ written done ∷ [])
      begun-IsConsistent (refl, (refl, tt)) waits waiting_open

abbrev refusing : Manager ℕ
refusing = (PacketType.json, refuser) ∷ []

calm : IsCalm refusing
unfolding get_interceptor lookup
calm type content i found = elim (Bool-cases (PacketType.json == type)) [
  | inl e ↦
      let same : refuser ≡ i = cc (rw e at found) in
      (none, ap (λ (j : Interceptor ℕ). j.deserialize content) (sym same))
  | inr e ↦ absurd (cc (rw e at found))
]

calm_out : IsCalmOut refusing
unfolding get_interceptor lookup
calm_out type v i found = elim (Bool-cases (PacketType.json == type)) [
  | inl e ↦
      let same : refuser ≡ i = cc (rw e at found) in
      (v ∷ [], ap (λ (j : Interceptor ℕ). j.serialize v) (sym same))
  | inr e ↦ absurd (cc (rw e at found))
]

abbrev guarded : Session ℕ
guarded =
    on_conn
      (λ c. record c { interceptors = refusing; packet_handlers = (PacketType.text, echo) ∷ [] })
      fresh

finds :
    (p : Packet)
    → handler_for (tables guarded.conn) p ≡ (if PacketType.text == p.type then some echo else none)
unfolding lookup accept new
finds p = ground arith

quiet : HandlersReturn (tables guarded.conn)
quiet p h found =
    let listed = sym (finds p) ∙ found in
    elim (Bool-cases (PacketType.text == p.type)) [
      | inl e ↦
          let same : echo ≡ h = cc (rw e at listed) in
          ap (λ (j : PacketHandler). j.ends p) (sym same)
      | inr e ↦ absurd (cc (rw e at listed))
    ]

unread : ReaderReturns guarded.read_handler
unfolding accept new
unread h bytes e = absurd (cc e)

guarded_empty : All IsByte guarded.read_buffer
unfolding accept
guarded_empty = tt

-- A text that is answered, bytes that make no sense, a tick, and a call.
abbrev odd_inputs : List (Input ℕ)
odd_inputs =
    read (received (serialize little_endian greeting))
    ∷ read (received nonsense)
    ∷ timer
    ∷ send_value PacketType.json 3
    ∷ api (calls_send greeting)
    ∷ []

session_run_returns_example : (t : Session ℕ) × (run willing guarded odd_inputs ≡ returns t)
session_run_returns_example =
    session_run_returns willing (tables guarded.conn) guarded.read_handler calm calm_out quiet
      unread guarded odd_inputs refl refl guarded_empty
      (All-serialize little_endian little_endian-IsByteAbi greeting greeting-IsWire, ground arith)
