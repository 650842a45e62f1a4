-- ===== src/Exchange/Relay.antt =====
-- Two clients and the server between them: `send` of src/client.cpp, the reads and the handlers of
-- src/server.cpp, and the reads of src/client.cpp. Models no code of its own.
use libuv_net.Base.{ℕ, ◌≡◌, refl, ◌∙◌, true, false, List, [], ◌∷◌, none, some, ◌==◌}
use libuv_net.Base.Outcome.{returns, ◌>>=◌, foldm}
use libuv_net.Base.Map.{lookup}
use libuv_net.Packet.{Packet, serialize}
use libuv_net.Packet.PacketType
use libuv_net.Packet.Header.{IsByteAbi}
use libuv_net.Packet.RoundTrip.{IsWire}
use libuv_net.Framing.Chunks.{join, feed}
use libuv_net.Uv.{Uv, Event, received, writes}
use libuv_net.Session.Defs.{Conn, Session, on_conn, send as session_send}
use libuv_net.Session.Refinement.{session}
use libuv_net.Session.Lifecycle.{read}
use libuv_net.Server.Calls.{ServerHandler, calls_broadcast}
use libuv_net.Server.Defs.{Server, server_handler}
use libuv_net.Server.Lifecycle.{Reach, on_session}
use libuv_net.Server.Objects.{mem}
use libuv_net.Server.Relay.{read_broadcasts}
use libuv_net.Client.Defs.{Link, send as client_send}
use libuv_net.Client.Receive.{append_to_buffer as client_append}
use libuv_net.Client.Refinement.{client, handle as client_handle}
use libuv_net.Exchange.{wire, client_send_lem, session_to_client}

pub image_lem :
    {V : Type 0} (uv : Uv) (p : Packet) (l : Link V) (image : List ℕ)
    → l.is_connected ≡ true
    → writes (client_send uv p l).history ≡ image ∷ writes l.history
    → image ≡ serialize uv.abi p
image_lem uv p l image up written = cc (written, (client_send_lem uv p l up).1)

-- A server whose handler for a packet broadcasts another one and returns, in a reachable state,
-- with the same byte order and padding as its clients. A connected client sends the first packet,
-- and what it gives to uv_write comes in with one read on a session whose buffer is empty and which
-- has no read handler. Then the callback does not throw, and another listed session, which is open
-- and has written nothing yet, has written something; if that arrives at its client, in whatever
-- pieces, this client handles the other packet once, and nothing else.
pub relay_lem :
    {U V W : Type 0} (at : ℕ → Uv) (uv near far : Uv) (history : List Event) (s : Server V)
    (a b : ℕ) (old : Conn V) (t : Session V) (k : Link U) (l : Link W) (p q : Packet)
    (h : ServerHandler) (image : List ℕ) (chunks : List (List ℕ))
    → Reach uv at history s
    → lookup a s.objects ≡ some (session old [])
    → lookup b s.objects ≡ some t
    → a == b ≡ false
    → mem b s.sessions ≡ true
    → old.read_handler ≡ none
    → t.is_closing ≡ false
    → writes t.history ≡ []
    → server_handler s p ≡ some h
    → h.react p ≡ calls_broadcast q ∷ []
    → h.ends p ≡ returns tt
    → p.type == PacketType.heartbeat ≡ false
    → IsWire p
    → IsWire q
    → IsByteAbi (at a).abi
    → IsByteAbi far.abi
    → near.abi ≡ (at a).abi
    → far.abi ≡ (at b).abi
    → k.is_connected ≡ true
    → writes (client_send near p k).history ≡ image ∷ writes k.history
    → join chunks ≡ wire (writes (session_send (at b) q t.conn).history)
    → (r : Server V) × (on_session at a (read (received image)) s ≡ returns r)
      × (lookup b r.objects ≡ some (on_conn (session_send (at b) q) t))
      × (feed (client_append far) (client l []) chunks
          ≡ (foldm (client_handle far) l (q ∷ []) >>= λ d. returns (client d [])))
relay_lem at uv near far history s a b old t k l p q h image chunks r found other apart listed
      unread is_open fresh chosen reaction ending kind wire_p wire_q pads pads_far same_a same_b up
      written arrived =
    let (s', d, ends, shape, objects) =
      read_broadcasts at q uv history s a old p h r found unread pads wire_p kind chosen reaction
        ending in
    (
      s',
      rw (image_lem near p k image up written) (rw same_a ends),
      objects b ∙ rw apart (rw listed (rw other refl)),
      session_to_client (at b) far same_b pads_far (q ∷ []) (wire_q, tt) chunks t.conn l is_open
          fresh arrived,
    )
