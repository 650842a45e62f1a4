-- ===== src/Exchange.antt =====
-- Both ends together: `send` of src/client.cpp against the reads of src/session.cpp, and the other
-- way round. Models no code of its own.
pub mod Relay
mod Tests
mod RelayTests
use libuv_net.Base.{
  subst, ℕ, ◌+◌, ◌<◌, ◌≡◌, refl, sym, ap, ◌∙◌, true, false, List, [], ◌∷◌, ◌++◌, length, take, All,
  append-nil, append_assoc, arith,
}
use libuv_net.Base.Outcome.{Outcome, returns, ◌>>=◌, foldm}
use libuv_net.Packet.{Packet, empty_packet, serialize}
use libuv_net.Packet.Header.{IsByteAbi}
use libuv_net.Packet.RoundTrip.{IsWire, empty_packet-IsWire, something}
use libuv_net.Framing.Stream.{stream}
use libuv_net.Framing.Chunks.{join, feed}
use libuv_net.Uv.{Uv, writes}
use libuv_net.Session.Defs.{Conn, send as session_send}
use libuv_net.Session.Receive.{append_to_buffer as session_append}
use libuv_net.Session.Refinement.{session, handle as session_handle, session-feed-stream}
use libuv_net.Client.Defs.{Link, send as client_send}
use libuv_net.Client.Receive.{append_to_buffer as client_append}
use libuv_net.Client.Refinement.{client, handle as client_handle, client-feed-stream}

-- All that was given to uv_write, in the order of the bytes on the connection.
abbrev pub wire : List (List ℕ) → List ℕ
wire [] = []
wire (bytes ∷ earlier) = wire earlier ++ bytes

abbrev pub send_each : {X : Type 0} → (Packet → X → X) → List Packet → X → X
send_each send [] x = x
send_each send (p ∷ ps) x = send_each send ps (send p x)

-- An end that writes the image of each packet that it sends, as long as it is up.
wire-send_each :
    {X : Type 0} (uv : Uv) (send : Packet → X → X) (written : X → List (List ℕ)) (Up : X → Type 0)
    → ((p : Packet) (x : X)
        → Up x
        → Up (send p x) × (written (send p x) ≡ serialize uv.abi p ∷ written x))
    → (ps : List Packet) (x : X) → Up x
    → wire (written (send_each send ps x)) ≡ wire (written x) ++ stream uv.abi ps
wire-send_each uv send written Up sends [] x up = sym (append-nil (wire (written x)))
wire-send_each uv send written Up sends (p ∷ ps) x up =
    wire-send_each uv send written Up sends ps (send p x) (sends p x up).0
    ∙ ap (λ w. wire w ++ stream uv.abi ps) (sends p x up).1
    ∙ append_assoc (wire (written x)) (serialize uv.abi p) (stream uv.abi ps)

pub client_send_lem :
    {V : Type 0} (uv : Uv) (p : Packet) (l : Link V)
    → l.is_connected ≡ true
    → ((client_send uv p l).is_connected ≡ true)
      × (writes (client_send uv p l).history ≡ serialize uv.abi p ∷ writes l.history)
unfolding client_send
client_send_lem uv p l up = ground arith

pub session_send_lem :
    {V : Type 0} (uv : Uv) (p : Packet) (c : Conn V)
    → c.is_closing ≡ false
    → ((session_send uv p c).is_closing ≡ false)
      × (writes (session_send uv p c).history ≡ serialize uv.abi p ∷ writes c.history)
unfolding session_send
session_send_lem uv p c up = ground arith

module _ (uv peer : Uv) (same : peer.abi ≡ uv.abi) (ps : List Packet) (chunks : List (List ℕ)) where
  arrives :
      (new old : List (List ℕ))
      → old ≡ []
      → wire new ≡ wire old ++ stream uv.abi ps
      → join chunks ≡ wire new
      → join chunks ≡ stream peer.abi ps ++ take 0 (serialize peer.abi empty_packet)
  arrives new old e w h = h ∙ w ∙ rw (e, same) (sym (append-nil (stream uv.abi ps)))

module _ {V W : Type 0} (uv peer : Uv) (same : peer.abi ≡ uv.abi) (pads : IsByteAbi peer.abi)
    (ps : List Packet) (wires : All IsWire ps) (chunks : List (List ℕ)) where
  -- A connected client that has written nothing yet sends packets, whose fields fit the wire, to a
  -- session on a machine of the same byte order and padding. If what it gives to uv_write arrives,
  -- in whatever pieces, the session handles exactly these packets, in their order, until one
  -- throws, and nothing is left in its buffer.
  pub client_to_session :
      (l : Link V) (c : Conn W)
      → l.is_connected ≡ true
      → writes l.history ≡ []
      → join chunks ≡ wire (writes (send_each (client_send uv) ps l).history)
      → feed (session_append peer) (session c []) chunks
        ≡ (foldm (session_handle peer) c ps >>= λ d. returns (session d []))
  client_to_session l c up fresh h =
      session-feed-stream peer chunks c ps empty_packet 0 pads wires empty_packet-IsWire
        (something peer.abi)
        (arrives uv peer same ps chunks (writes (send_each (client_send uv) ps l).history)
          (writes l.history) fresh
          (wire-send_each uv (client_send uv) (λ (k : Link V). writes k.history)
            (λ (k : Link V). k.is_connected ≡ true) (client_send_lem uv) ps l up)
          h)

  -- An open session that has written nothing yet sends packets, whose fields fit the wire, to a
  -- client on a machine of the same byte order and padding. If what it gives to uv_write arrives,
  -- in whatever pieces, the client handles exactly these packets, in their order, until one throws,
  -- and nothing is left in its buffer.
  pub session_to_client :
      (c : Conn V) (l : Link W)
      → c.is_closing ≡ false
      → writes c.history ≡ []
      → join chunks ≡ wire (writes (send_each (session_send uv) ps c).history)
      → feed (client_append peer) (client l []) chunks
        ≡ (foldm (client_handle peer) l ps >>= λ d. returns (client d []))
  session_to_client c l up fresh h =
      client-feed-stream peer chunks l ps empty_packet 0 pads wires empty_packet-IsWire
        (something peer.abi)
        (arrives uv peer same ps chunks (writes (send_each (session_send uv) ps c).history)
          (writes c.history) fresh
          (wire-send_each uv (session_send uv) (λ (k : Conn V). writes k.history)
            (λ (k : Conn V). k.is_closing ≡ false) (session_send_lem uv) ps c up)
          h)

-- A connected client and an open session, on machines of the same byte order and padding, which have
-- written nothing yet, send packets to each other, whose fields fit the wire. If what each gives to
-- uv_write arrives at the other, in whatever pieces, then each handles exactly the packets of the
-- other, in their order, until one throws, and nothing is left in its buffer.
pub both_ways :
    {V W : Type 0} (uv peer : Uv) (ps qs : List Packet) (xs ys : List (List ℕ)) (l : Link V)
    (c : Conn W)
    → peer.abi ≡ uv.abi
    → IsByteAbi peer.abi
    → All IsWire ps
    → All IsWire qs
    → l.is_connected ≡ true
    → writes l.history ≡ []
    → c.is_closing ≡ false
    → writes c.history ≡ []
    → join xs ≡ wire (writes (send_each (client_send uv) ps l).history)
    → join ys ≡ wire (writes (send_each (session_send peer) qs c).history)
    → (feed (session_append peer) (session c []) xs
        ≡ (foldm (session_handle peer) c ps >>= λ d. returns (session d [])))
      × (feed (client_append uv) (client l []) ys
          ≡ (foldm (client_handle uv) l qs >>= λ d. returns (client d [])))
both_ways uv peer ps qs xs ys l c same pads wires wires' up fresh open_ fresh' there back = (
  client_to_session uv peer same pads ps wires xs l c up fresh there,
  session_to_client peer uv (sym same) (subst IsByteAbi same pads) qs wires' ys c l open_ fresh'
      back,
)
