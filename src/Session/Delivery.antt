-- ===== src/Session/Delivery.antt =====
-- Which handlers the packets of a session reach, said without the state: src/session.cpp,
-- `handle_packet`.
use libuv_net.Base.{
  ℕ, ◌≡◌, refl, sym, ap, ◌∙◌, List, [], ◌∷◌, ◌++◌, Option, none, some, ◌==◌, if◌then◌else◌,
  append-nil, append_assoc, arith, Bool-cases, Option-cases, inl, inr,
}
use libuv_net.Base.Outcome.{Outcome, returns, throws, stuck, ◌>>=◌, foldm, bind_congr, bind_assoc}
use libuv_net.Base.Map.{Map, lookup}
use libuv_net.Packet.{Packet}
use libuv_net.Packet.PacketType
use libuv_net.Interceptor.{Manager, get_interceptor}
use libuv_net.Uv.{Uv, Event, call_packet}
use libuv_net.Session.Defs.{
  Call, calls_send, calls_stop, calls_close, calls_server, calls_other, PacketHandler, Conn, emit,
  run_call, run_calls,
}
use libuv_net.Session.Receive.{call_handler, dispatch, gate, handle_packet}

-- What decides where a packet goes.
pub record Tables (V : Type 0) : Type 0 where
  pub packet_handlers : Map PacketHandler
  pub default_packet_handler : Option PacketHandler
  pub interceptors : Manager V

-- The packet handlers called, oldest first.
abbrev pub calls : List Event → List (ℕ × Packet)
calls [] = []
calls (call_packet h p ∷ es) = calls es ++ (h, p) ∷ []
calls (_ ∷ es) = calls es

-- One call, unless the handler throws or never returns.
abbrev one_call : Option PacketHandler → Packet → Outcome (List (ℕ × Packet))
one_call none p = returns []
one_call (some h) p = h.ends p >>= λ _. returns ((h.name, p) ∷ [])

module _ {V : Type 0} where
  abbrev pub tables : Conn V → Tables V
  tables c = record {
    packet_handlers = c.packet_handlers;
    default_packet_handler = c.default_packet_handler;
    interceptors = c.interceptors;
  }

  -- The handler of the packet's type, or else the default one.
  abbrev pub handler_for : Tables V → Packet → Option PacketHandler
  handler_for t p = elim (lookup p.type t.packet_handlers) [
    | some h ↦ some h
    | none ↦ t.default_packet_handler
  ]

  abbrev let_through : Tables V → Packet → Option V → Outcome (List (ℕ × Packet))
  let_through t p none = returns []
  let_through t p (some v) = one_call (handler_for t p) p

  -- A heartbeat goes to no handler, nor does content that the interceptor of its type refuses.
  unfoldable pub delivery : Tables V → Packet → Outcome (List (ℕ × Packet))
  delivery t p =
      if p.type == PacketType.heartbeat
      then returns []
      else elim (get_interceptor p.type t.interceptors) [
        | none ↦ one_call (handler_for t p) p
        | some i ↦ i.deserialize p.payload >>= λ v. let_through t p v
      ]

  unfoldable pub deliveries : Tables V → List Packet → Outcome (List (ℕ × Packet))
  deliveries t [] = returns []
  deliveries t (p ∷ ps) = delivery t p >>= λ xs. deliveries t ps >>= λ ys. returns (xs ++ ys)

module _ {V : Type 0} (uv : Uv) where
  run_call_keeps :
      (x : Call) (c : Conn V)
      → (tables (run_call uv x c) ≡ tables c) × (calls (run_call uv x c).history ≡ calls c.history)
  unfolding run_call
  run_call_keeps (calls_send p) c = ground arith
  run_call_keeps calls_stop c = ground arith
  run_call_keeps calls_close c = ground arith
  run_call_keeps (calls_server k q) c = ground arith
  run_call_keeps (calls_other k q) c = ground arith

  pub run_calls_keeps :
      (xs : List Call) (c : Conn V)
      → (tables (run_calls uv xs c) ≡ tables c)
        × (calls (run_calls uv xs c).history ≡ calls c.history)
  unfolding run_calls
  run_calls_keeps [] c = (refl, refl)
  run_calls_keeps (x ∷ xs) c =
      let now = run_call_keeps x c in
      let later = run_calls_keeps xs (run_call uv x c) in (later.0 ∙ now.0, later.1 ∙ now.1)

  -- What one packet leaves: the same tables, and its calls behind the earlier ones.
  abbrev Leaves : Conn V → Conn V → List (ℕ × Packet) → Type 0
  Leaves c d new = (tables d ≡ tables c) × (calls d.history ≡ calls c.history ++ new)

  -- What the delivery of later packets depends on, and the calls so far.
  abbrev pub observe : Outcome (Conn V) → Outcome (Tables V × List (ℕ × Packet))
  observe m = m >>= λ d. returns (tables d, calls d.history)

  abbrev pub behind : Conn V → List (ℕ × Packet) → Outcome (Tables V × List (ℕ × Packet))
  behind c new = returns (tables c, calls c.history ++ new)

  Leaves-observe :
      (c d : Conn V) (new : List (ℕ × Packet)) → Leaves c d new → observe (returns d) ≡ behind c new
  Leaves-observe c d new h = cc (h.0, h.1)

  nothing : (c : Conn V) → Leaves c c []
  nothing c = (refl, sym (append-nil (calls c.history)))

  after_end :
      (m : Outcome (Unit {0})) (c d : Conn V) (new : List (ℕ × Packet))
      → Leaves c d new
      → observe (m >>= λ _. returns d) ≡ (m >>= (λ _. returns new) >>= behind c)
  after_end (returns u) c d new h = Leaves-observe c d new h
  after_end throws c d new h = refl
  after_end stuck c d new h = refl

  call_handler-one_call :
      (h : PacketHandler) (p : Packet) (c : Conn V)
      → observe (call_handler uv h p c) ≡ (one_call (some h) p >>= behind c)
  unfolding call_handler
  call_handler-one_call h p c =
      after_end (h.ends p) c _ ((h.name, p) ∷ [])
        (run_calls_keeps (h.react p) (emit (call_packet h.name p) c))

  reach : Option PacketHandler → Packet → Conn V → Outcome (Conn V)
  reach (some h) p c = call_handler uv h p c
  reach none p c = returns c

  reach-one_call :
      (o : Option PacketHandler) (p : Packet) (c : Conn V)
      → observe (reach o p c) ≡ (one_call o p >>= behind c)
  unfolding reach
  reach-one_call (some h) p c = call_handler-one_call h p c
  reach-one_call none p c = Leaves-observe c c [] (nothing c)

  dispatch-reach :
      (p : Packet) (c : Conn V) → dispatch uv p c ≡ reach (handler_for (tables c) p) p c
  unfolding dispatch reach
  dispatch-reach p c = ground arith

  dispatch-one_call :
      (p : Packet) (c : Conn V)
      → observe (dispatch uv p c) ≡ (one_call (handler_for (tables c) p) p >>= behind c)
  dispatch-one_call p c =
      ap (λ m. observe m) (dispatch-reach p c) ∙ reach-one_call (handler_for (tables c) p) p c

  gate-let_through :
      (v : Option V) (p : Packet) (c : Conn V)
      → observe (gate uv v p c) ≡ (let_through (tables c) p v >>= behind c)
  unfolding gate
  gate-let_through none p c = Leaves-observe c c [] (nothing c)
  gate-let_through (some v) p c = dispatch-one_call p c

  intercepted :
      (m : Outcome (Option V)) (p : Packet) (c : Conn V)
      → observe (m >>= λ v. gate uv v p c) ≡ (m >>= (λ v. let_through (tables c) p v) >>= behind c)
  intercepted (returns v) p c = gate-let_through v p c
  intercepted throws p c = refl
  intercepted stuck p c = refl

  handle_packet-delivery :
      (p : Packet) (c : Conn V)
      → observe (handle_packet uv p c) ≡ (delivery (tables c) p >>= behind c)
  unfolding handle_packet delivery
  handle_packet-delivery p c = elim (Bool-cases (p.type == PacketType.heartbeat)) [
    | inl e ↦ rw e (Leaves-observe c c [] (nothing c))
    | inr e ↦ elim (Option-cases (get_interceptor p.type c.interceptors)) [
      | inl none_here ↦ rw e (rw none_here (dispatch-one_call p c))
      | inr (i, found) ↦ rw e (rw found (intercepted (i.deserialize p.payload) p c))
    ]
  ]

  -- The packets after the first, from what the first leaves.
  abbrev later : List Packet → Tables V × List (ℕ × Packet) → Outcome (Tables V × List (ℕ × Packet))
  later ps r = deliveries r.0 ps >>= λ new. returns (r.0, r.1 ++ new)

  joins :
      (m : Outcome (List (ℕ × Packet))) (c : Conn V) (xs : List (ℕ × Packet))
      → (m >>= λ ys. returns (tables c, (calls c.history ++ xs) ++ ys))
        ≡ (m >>= (λ ys. returns (xs ++ ys)) >>= behind c)
  joins (returns ys) c xs = ap (λ l. returns (tables c, l)) (append_assoc (calls c.history) xs ys)
  joins throws c xs = refl
  joins stuck c xs = refl

  -- The calls that a list of packets leads to are those that the tables say, in order: each packet
  -- is handed to one handler at most, whatever calls the handlers make on the session, and none
  -- after an interceptor or a handler has thrown.
  pub deliveries_lem :
      (ps : List Packet) (c : Conn V)
      → observe (foldm (λ d p. handle_packet uv p d) c ps) ≡ (deliveries (tables c) ps >>= behind c)
  unfolding deliveries
  deliveries_lem [] c = Leaves-observe c c [] (nothing c)
  deliveries_lem (p ∷ ps) c =
      bind_assoc (handle_packet uv p c) _ _
      ∙ bind_congr (handle_packet uv p c) (λ d. deliveries_lem ps d)
      ∙ sym (bind_assoc (handle_packet uv p c) _ (later ps))
      ∙ ap (λ m. m >>= later ps) (handle_packet-delivery p c)
      ∙ bind_assoc (delivery (tables c) p) (behind c) (later ps)
      ∙ bind_congr (delivery (tables c) p) (λ xs. joins (deliveries (tables c) ps) c xs)
      ∙ sym (bind_assoc (delivery (tables c) p) _ (behind c))
