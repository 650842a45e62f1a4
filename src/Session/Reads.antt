-- ===== src/Session/Reads.antt =====
-- A read of src/session.cpp that brings one packet, from `on_read` to `handle_packet`.
use libuv_net.Base.{ℕ, List, some, ◌≡◌, refl, sym, ap, ◌∙◌, [], ◌∷◌, ◌++◌, append-nil, none}
use libuv_net.Base.Outcome.{Outcome, returns, throws, stuck, ◌>>=◌, bind_assoc}
use libuv_net.Packet.{Packet, empty_packet, serialize, header_bytes}
use libuv_net.Packet.Header.{IsByteAbi}
use libuv_net.Packet.RoundTrip.{IsWire, empty_packet-IsWire, something}
use libuv_net.Uv.{Uv, Event, received}
use libuv_net.Session.Defs.{Conn, Session, emit, on_conn, run_calls}
use libuv_net.Session.Receive.{handle_packet, append_to_buffer, on_read}
use libuv_net.Session.Refinement.{session, session-feed-stream}

bind-returns : {A : Type 0} (m : Outcome A) → (m >>= returns) ≡ m
bind-returns (returns a) = refl
bind-returns throws = refl
bind-returns stuck = refl

one_packet :
    {V : Type 0} (uv : Uv) (c : Conn V) (p : Packet)
    → IsByteAbi uv.abi
    → IsWire p
    → append_to_buffer uv (serialize uv.abi p) (session c [])
      ≡ (handle_packet uv p c >>= λ d. returns (session d []))
one_packet uv c p pads wire =
    let image = serialize uv.abi p in
    sym (bind-returns (append_to_buffer uv image (session c [])))
    ∙ session-feed-stream uv (image ∷ []) c (p ∷ []) empty_packet 0 pads (wire, tt)
        empty_packet-IsWire (something uv.abi) (sym (append-nil (image ++ [])))
    ∙ bind_assoc (handle_packet uv p c) returns (λ d. returns (session d []))

unread :
    {V : Type 0} (uv : Uv) (s : Session V) (b : ℕ) (bytes : List ℕ)
    → s.read_handler ≡ none
    → on_read uv (received (b ∷ bytes)) s
      ≡ (append_to_buffer uv (b ∷ bytes) s >>= λ t. returns (on_conn (emit Event.delete_buffer) t))
unfolding on_read
unread uv s b bytes h =
    ap
      (λ o.
        (elim o [
          | some h ↦ h.ends (b ∷ bytes) >>= λ _. returns (
              on_conn
                (λ c.
                  run_calls uv (h.react (b ∷ bytes)) (emit (Event.call_read h.name (b ∷ bytes)) c))
                s)
          | none ↦ append_to_buffer uv (b ∷ bytes) s
        ])
        >>= λ t. returns (on_conn (emit Event.delete_buffer) t))
      h

-- Without a read handler and with an empty buffer, the image of a packet is handled, and then the
-- buffer of the read is deleted, unless an exception comes before.
pub on_read-one_packet :
    {V : Type 0} (uv : Uv) (c : Conn V) (p : Packet)
    → c.read_handler ≡ none
    → IsByteAbi uv.abi
    → IsWire p
    → on_read uv (received (serialize uv.abi p)) (session c [])
      ≡ (handle_packet uv p c >>= λ d. returns (session (emit Event.delete_buffer d) []))
unfolding serialize header_bytes
on_read-one_packet uv c p h pads wire =
    unread uv (session c []) _ _ h
    ∙ ap (λ m. m >>= λ t. returns (on_conn (emit Event.delete_buffer) t))
        (one_packet uv c p pads wire)
    ∙ bind_assoc (handle_packet uv p c) (λ d. returns (session d [])) _
