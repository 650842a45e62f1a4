-- ===== src/Session/Robust.antt =====
-- Exceptions from the packets of a session: src/session.cpp, `handle_packet`.
use libuv_net.Base.{
  arith, ◌≡◌, refl, sym, ap, ◌∙◌, List, [], ◌∷◌, ◌==◌, Option, some, none, Bool-cases, Option-cases,
  inl, inr,
}
use libuv_net.Base.Outcome.{Outcome, returns, foldm, Holds-of_returns}
use libuv_net.Base.Map.{lookup}
use libuv_net.Packet.{Packet}
use libuv_net.Packet.PacketType
use libuv_net.Interceptor.Calm.{IsCalm}
use libuv_net.Interceptor.{get_interceptor}
use libuv_net.Uv.{Uv}
use libuv_net.Session.Defs.{
  PacketHandler, ReadHandler, Conn, run_call, Call, calls_send, calls_stop, calls_close,
  calls_server, calls_other,
}
use libuv_net.Session.Receive.{call_handler, dispatch, gate, handle_packet}
use libuv_net.Session.Refinement.{handle}
use libuv_net.Session.Delivery.{Tables, tables, handler_for}
use libuv_net.Session.Keeps.{handle_packet-keeps}

-- Every packet handler that these tables lead to returns: it neither throws nor goes on forever,
-- and none is empty.
abbrev pub HandlersReturn : {V : Type 0} → Tables V → Type 0
HandlersReturn t =
    (p : Packet) (h : PacketHandler) → handler_for t p ≡ some h → h.ends p ≡ returns tt

module _ {V : Type 0} (uv : Uv) (t : Tables V) (r : Option ReadHandler) where
  -- What no call of a handler changes.
  abbrev pub Keeps : Conn V → Type 0
  Keeps c = (tables c ≡ t) × (c.read_handler ≡ r)

  pub run_call-Keeps : (x : Call) (c : Conn V) → Keeps c → Keeps (run_call uv x c)
  unfolding run_call
  run_call-Keeps (calls_send p) c h = ground arith
  run_call-Keeps calls_stop c h = ground arith
  run_call-Keeps calls_close c h = ground arith
  run_call-Keeps (calls_server k p) c h = ground arith
  run_call-Keeps (calls_other k p) c h = ground arith

  -- A result of a packet.
  abbrev Returns : Outcome (Conn V) → Type 0
  Returns m = (d : Conn V) × (m ≡ returns d)

  module _ (calm : IsCalm t.interceptors) (quiet : HandlersReturn t) where
    call_handler-Returns :
        (h : PacketHandler) (p : Packet) (c : Conn V)
        → h.ends p ≡ returns tt
        → Returns (call_handler uv h p c)
    unfolding call_handler
    call_handler-Returns h p c e = rw e (_, refl)

    default-Returns :
        (o : Option PacketHandler) (p : Packet) (c : Conn V)
        → ((h : PacketHandler) → o ≡ some h → h.ends p ≡ returns tt)
        → Returns (elim o [ some h ↦ call_handler uv h p c | none ↦ returns c ])
    default-Returns none p c e = (c, refl)
    default-Returns (some h) p c e = call_handler-Returns h p c (e h refl)

    listed :
        (p : Packet) (c : Conn V) (h : PacketHandler)
        → tables c ≡ t
        → lookup p.type c.packet_handlers ≡ some h
        → handler_for t p ≡ some h
    listed p c h k e = ap (λ u. handler_for u p) (sym k) ∙ ground (arith, e)

    falls :
        (p : Packet) (c : Conn V) (h : PacketHandler)
        → tables c ≡ t
        → lookup p.type c.packet_handlers ≡ none
        → c.default_packet_handler ≡ some h
        → handler_for t p ≡ some h
    falls p c h k e f = ap (λ u. handler_for u p) (sym k) ∙ ground (arith, e, f)

    dispatch-Returns : (p : Packet) (c : Conn V) → tables c ≡ t → Returns (dispatch uv p c)
    unfolding dispatch
    dispatch-Returns p c k = elim (Option-cases (lookup p.type c.packet_handlers)) [
      | inr (h, e) ↦ rw (e, dispatch) (call_handler-Returns h p c (quiet p h (listed p c h k e)))
      | inl e ↦
          rw (e, dispatch)
            (default-Returns c.default_packet_handler p c (λ h f. quiet p h (falls p c h k e f)))
    ]

    gate-Returns : (v : Option V) (p : Packet) (c : Conn V) → tables c ≡ t → Returns (gate uv v p c)
    unfolding gate
    gate-Returns none p c k = (c, refl)
    gate-Returns (some v) p c k = dispatch-Returns p c k

    handle_packet-Returns :
        (p : Packet) (c : Conn V) → tables c ≡ t → Returns (handle_packet uv p c)
    unfolding handle_packet
    handle_packet-Returns p c k = elim (Bool-cases (p.type == PacketType.heartbeat)) [
      | inl e ↦ rw e (_, refl)
      | inr e ↦ elim (Option-cases (get_interceptor p.type c.interceptors)) [
        | inl gone ↦ rw e (rw gone (dispatch-Returns p c k))
        | inr (i, found) ↦
            let (v, parses) =
              calm p.type p.payload i
                (ap (λ u. get_interceptor p.type u.interceptors) (sym k) ∙ found) in
            rw e (rw found (rw parses (gate-Returns v p c k)))
      ]
    ]

    handle_packet-Keeps :
        (p : Packet) (c d : Conn V) → Keeps c → handle_packet uv p c ≡ returns d → Keeps d
    handle_packet-Keeps p c d k e =
        Holds-of_returns Keeps (handle_packet uv p c)
          (handle_packet-keeps uv Keeps (λ x c plain h. h) (λ n b c h. h) run_call-Keeps p c k) e

    pub foldm-Returns : (ps : List Packet) (c : Conn V) → Keeps c → Returns (foldm (handle uv) c ps)
    foldm-Returns [] c k = (c, refl)
    foldm-Returns (p ∷ ps) c k =
        let (d, e) = handle_packet-Returns p c k.0 in
        let (f, later) = foldm-Returns ps d (handle_packet-Keeps p c d k e) in (f, rw e later)
