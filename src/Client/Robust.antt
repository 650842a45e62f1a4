-- ===== src/Client/Robust.antt =====
-- Exceptions from the packets of a client: src/client.cpp, the loop of `append_to_buffer`.
use libuv_net.Base.{
  ◌≡◌, refl, sym, ap, ◌∙◌, List, [], ◌∷◌, Option, none, some, Option-cases, inl, inr, arith,
}
use libuv_net.Base.Outcome.{Outcome, returns, foldm, Holds-of_returns}
use libuv_net.Base.Map.{Map, lookup}
use libuv_net.Packet.{Packet}
use libuv_net.Interceptor.{Manager, get_interceptor}
use libuv_net.Interceptor.Calm.{IsCalm}
use libuv_net.Uv.{Uv}
use libuv_net.Client.Defs.{
  Call, calls_send, calls_connect, calls_disconnect, PacketHandler, Link, run_call,
}
use libuv_net.Client.Receive.{call_handler, dispatch, gate, handle_packet}
use libuv_net.Client.Refinement.{handle}
use libuv_net.Client.Keeps.{handle_packet-keeps}

-- What decides where a packet goes.
pub record Tables (V : Type 0) : Type 0 where
  pub packet_handlers : Map PacketHandler
  pub default_packet_handler : Option PacketHandler
  pub interceptors : Manager V

abbrev pub tables : {V : Type 0} → Link V → Tables V
tables l = record {
  packet_handlers = l.packet_handlers;
  default_packet_handler = l.default_packet_handler;
  interceptors = l.interceptors;
}

-- The handler of the packet's type, or else the default one.
abbrev pub handler_for : {V : Type 0} → Tables V → Packet → Option PacketHandler
handler_for t p = elim (lookup p.type t.packet_handlers) [
  | some h ↦ some h
  | none ↦ t.default_packet_handler
]

-- Every packet handler that these tables lead to returns: it neither throws nor goes on forever,
-- and none is empty.
abbrev pub HandlersReturn : {V : Type 0} → Tables V → Type 0
HandlersReturn t =
    (p : Packet) (h : PacketHandler) → handler_for t p ≡ some h → h.ends p ≡ returns tt

module _ {V : Type 0} (uv : Uv) (t : Tables V) where
  -- What no call of a handler changes.
  abbrev pub Keeps : Link V → Type 0
  Keeps l = tables l ≡ t

  pub run_call-Keeps : (x : Call) (l : Link V) → Keeps l → Keeps (run_call uv x l)
  unfolding run_call
  run_call-Keeps (calls_send p) l h = ground arith
  run_call-Keeps (calls_connect host port) l h = ground arith
  run_call-Keeps calls_disconnect l h = ground arith

  -- A result of a packet.
  abbrev Returns : Outcome (Link V) → Type 0
  Returns m = (k : Link V) × (m ≡ returns k)

  module _ (calm : IsCalm t.interceptors) (quiet : HandlersReturn t) where
    call_handler-Returns :
        (h : PacketHandler) (p : Packet) (l : Link V)
        → h.ends p ≡ returns tt
        → Returns (call_handler uv h p l)
    unfolding call_handler
    call_handler-Returns h p l e = rw e (_, refl)

    default-Returns :
        (o : Option PacketHandler) (p : Packet) (l : Link V)
        → ((h : PacketHandler) → o ≡ some h → h.ends p ≡ returns tt)
        → Returns (elim o [ some h ↦ call_handler uv h p l | none ↦ returns l ])
    default-Returns none p l e = (l, refl)
    default-Returns (some h) p l e = call_handler-Returns h p l (e h refl)

    listed :
        (p : Packet) (l : Link V) (h : PacketHandler)
        → tables l ≡ t
        → lookup p.type l.packet_handlers ≡ some h
        → handler_for t p ≡ some h
    listed p l h k e = ap (λ u. handler_for u p) (sym k) ∙ ground (arith, e)

    falls :
        (p : Packet) (l : Link V) (h : PacketHandler)
        → tables l ≡ t
        → lookup p.type l.packet_handlers ≡ none
        → l.default_packet_handler ≡ some h
        → handler_for t p ≡ some h
    falls p l h k e f = ap (λ u. handler_for u p) (sym k) ∙ ground (arith, e, f)

    dispatch-Returns : (p : Packet) (l : Link V) → tables l ≡ t → Returns (dispatch uv p l)
    unfolding dispatch
    dispatch-Returns p l k = elim (Option-cases (lookup p.type l.packet_handlers)) [
      | inr (h, e) ↦ rw (e, dispatch) (call_handler-Returns h p l (quiet p h (listed p l h k e)))
      | inl e ↦
          rw (e, dispatch)
            (default-Returns l.default_packet_handler p l (λ h f. quiet p h (falls p l h k e f)))
    ]

    gate-Returns : (v : Option V) (p : Packet) (l : Link V) → tables l ≡ t → Returns (gate uv v p l)
    unfolding gate
    gate-Returns none p l k = (l, refl)
    gate-Returns (some v) p l k = dispatch-Returns p l k

    handle_packet-Returns :
        (p : Packet) (l : Link V) → tables l ≡ t → Returns (handle_packet uv p l)
    unfolding handle_packet
    handle_packet-Returns p l k = elim (Option-cases (get_interceptor p.type l.interceptors)) [
      | inl gone ↦ rw (gone, handle_packet) (dispatch-Returns p l k)
      | inr (i, found) ↦
          let (v, parses) =
            calm p.type p.payload i
              (ap (λ u. get_interceptor p.type u.interceptors) (sym k) ∙ found) in
          rw (found, handle_packet) (rw parses (gate-Returns v p l k))
    ]

    handle_packet-Keeps :
        (p : Packet) (l d : Link V) → Keeps l → handle_packet uv p l ≡ returns d → Keeps d
    handle_packet-Keeps p l d k e =
        Holds-of_returns Keeps (handle_packet uv p l)
          (handle_packet-keeps uv Keeps (λ e l plain h. h) run_call-Keeps p l k) e

    pub foldm-Returns : (ps : List Packet) (l : Link V) → Keeps l → Returns (foldm (handle uv) l ps)
    foldm-Returns [] l k = (l, refl)
    foldm-Returns (p ∷ ps) l k =
        let (d, e) = handle_packet-Returns p l k in
        let (f, later) = foldm-Returns ps d (handle_packet-Keeps p l d k e) in (f, rw e later)
