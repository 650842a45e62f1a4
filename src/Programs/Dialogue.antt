-- ===== src/Programs/Dialogue.antt =====
-- A dialogue of the client program and the server program, of any number of lines, over a network
-- that cuts what it carries. Models no code of its own.
use libuv_net.Base.{
  ℕ, ◌≡◌, refl, sym, ap, ◌∙◌, true, false, List, [], ◌∷◌, ◌++◌, map, All, none, some, ◌==◌, subst,
  append-nil, arith,
}
use libuv_net.Base.Outcome.{returns, foldm}
use libuv_net.Base.Map.{lookup}
use libuv_net.Packet.{Packet, serialize, empty_packet}
use libuv_net.Packet.Header.{IsByteAbi}
use libuv_net.Packet.RoundTrip.{IsWire, empty_packet-IsWire, something}
use libuv_net.Packet.PacketType
use libuv_net.Interceptor.{get_interceptor}
use libuv_net.Interceptor.Any.{Any}
use libuv_net.Interceptor.Json.{JsonLibrary}
use libuv_net.Uv.{Uv, Event, received}
use libuv_net.Session.Defs.{Conn, emit, send as session_send, set_default_packet_handler}
use libuv_net.Session.Refinement.{session}
use libuv_net.Session.Lifecycle.{read as session_read}
use libuv_net.Server.Defs.{Server, server_handler}
use libuv_net.Server.Calls.{hook_name}
use libuv_net.Server.Lifecycle.{Reach, next, session as session_step, prepare}
use libuv_net.Server.Answer.{read_answers}
use libuv_net.Client.Defs.{Link, send as client_send, emit as client_emit}
use libuv_net.Client.Refinement.{client, handle, client-feed-stream}
use libuv_net.Exchange.{session_send_lem, client_send_lem}
use libuv_net.Programs.Defs.{should_exit, shown, packet_handler_of, on_text, run}
use libuv_net.Programs.Entry.{app, run-text}
use libuv_net.Programs.Server.{response, text_handler}
use libuv_net.Programs.Talk.{arrives, run-arrives, shown-text, send-tables, handle-text}
use libuv_net.Programs.Rounds.{
  Round, typed, IsRound, shown_answer, shown_after, newest, written_by, round, round-returns,
}

module _ {J M : Type 0} (uv server_uv : Uv) (lib : JsonLibrary J) (pretty : J → List ℕ)
    (at : ℕ → Uv) (a : ℕ) (history : List Event) where
  -- A connected client with the handlers of the program, and a server with the handler of the
  -- program and an open session at `a`, between two packets.
  pub record IsReady (s : Server (Any J M)) (l : Link (Any J M)) : Type 0 where
    pub up : l.is_connected ≡ true
    pub awake : should_exit l.history ≡ false
    pub shows : lookup PacketType.text l.packet_handlers ≡ some (packet_handler_of on_text)
    pub plain : get_interceptor PacketType.text l.interceptors ≡ none
    pub reached : Reach server_uv at history s
    pub answers : (p : Packet) → p.type ≡ PacketType.text → server_handler s p ≡ some text_handler
    pub conn : Conn (Any J M)
    pub found : lookup a s.objects ≡ some (session conn [])
    pub unread : conn.read_handler ≡ none
    pub is_open : conn.is_closing ≡ false

  send-awake :
      (p : Packet) (l : Link (Any J M))
      → should_exit l.history ≡ false
      → should_exit (client_send uv p l).history ≡ false
  unfolding client_send
  send-awake p l h = ground arith

  send-unread :
      (p : Packet) (c : Conn (Any J M))
      → c.read_handler ≡ none
      → (session_send (at a) p c).read_handler ≡ none
  unfolding session_send
  send-unread p c h = ground arith

  -- The client shows what the session has written, however it is cut.
  reads_answer :
      (r : Round) (l : Link (Any J M)) (q : Packet)
      → IsByteAbi uv.abi
      → IsWire q
      → IsRound r
      → (foldm (handle uv) l (q ∷ []) ≡ returns (client_emit (Event.call_packet on_text q) l))
      → run uv lib (app (client l [])) (map arrives (r.cut (serialize uv.abi q)))
        ≡ returns (app (client (client_emit (Event.call_packet on_text q) l) []))
  reads_answer r l q pads wire good handled =
      let bytes = serialize uv.abi q in
      run-arrives uv lib pretty (r.cut bytes) (client l []) (good.pieces bytes)
      ∙ rw
          (client-feed-stream uv (r.cut bytes) l (q ∷ []) empty_packet 0 pads (wire, tt)
            empty_packet-IsWire (something uv.abi)
            (good.joined bytes ∙ sym (append-nil bytes) ∙ sym (append-nil (bytes ++ []))))
          (rw handled refl)

  round_lem :
      (s : Server (Any J M)) (l : Link (Any J M)) (r : Round)
      → IsByteAbi (at a).abi
      → uv.abi ≡ (at a).abi
      → IsReady s l
      → IsRound r
      → (t : Server (Any J M)) × (k : Link (Any J M)) × (round uv lib at a (s, app (client l [])) r
          ≡ returns (t, app (client k [])))
        × IsReady t k
        × (shown lib pretty k.history ≡ shown_answer r ∷ shown lib pretty l.history)
  unfolding set_default_packet_handler
  round_lem s l r pads same h good =
      let p = typed r in
      let q = response p in
      let sent = client_send uv p l in
      let k = client_emit (Event.call_packet on_text q) sent in
      let c =
        emit (Event.call_server_packet text_handler.name p)
          (emit (Event.call_packet hook_name p) (prepare a s h.conn)) in
      let (t, returned, objects, handlers) =
        read_answers at server_uv history s a h.conn p q text_handler h.reached h.found h.unread
          pads good.asked (ground arith) (h.answers p refl) refl refl in
      let self : a == a ≡ true = ground arith in
      let there : lookup a t.objects
          ≡ some (session (emit Event.delete_buffer (session_send (at a) q c)) []) =
        objects a ∙ rw self in
      let tables = send-tables uv lib pretty p l in
      let left = session_send_lem (at a) q c h.is_open in
      let handled =
        handle-text uv lib pretty q.payload sent (rw tables.0 h.shows) (rw tables.1 h.plain) in
      (
        t,
        k,
        round-returns uv lib at a s t (app (client l [])) (app (client sent [])) (app (client k []))
            r (serialize (at a).abi p) (serialize uv.abi q)
            (run-text uv lib r.first r.rest l h.awake)
            (ap newest (client_send_lem uv p l h.up).1 ∙ ap (λ abi. serialize abi p) same) returned
            (ap written_by there ∙ ap newest left.1 ∙ ap (λ abi. serialize abi q) (sym same))
            (reads_answer r sent q (subst IsByteAbi (sym same) pads) good.answered good
              (rw handled refl)),
        record {
          up = (client_send_lem uv p l h.up).0;
          awake = send-awake p l h.awake;
          shows = rw tables.0 h.shows;
          plain = rw tables.1 h.plain;
          reached =
              next h.reached
                (session_step a (session_read (received (serialize (at a).abi p))) returned);
          answers = λ x kind. handlers x ∙ h.answers x kind;
          conn = emit Event.delete_buffer (session_send (at a) q c);
          found = there;
          unread = send-unread q c h.unread;
          is_open = left.0;
        },
        shown-text uv lib pretty p q l,
      )

  -- A dialogue of any number of lines between a client and a server that stand ready, with the same
  -- byte order and padding, where the lines are not empty, lines and answers fit the wire, and the
  -- network delivers what is sent, the line in one read and the answer in whatever pieces: nothing
  -- throws, the program has shown exactly the answers, each once and in order (the label of the
  -- server and the line, with a zero of the client and one of the server behind it), it asks for
  -- the next line, and both ends stand ready for it.
  pub dialogue_lem :
      (s : Server (Any J M)) (l : Link (Any J M)) (rs : List Round)
      → IsByteAbi (at a).abi
      → uv.abi ≡ (at a).abi
      → IsReady s l
      → All IsRound rs
      → (t : Server (Any J M)) × (k : Link (Any J M)) × (foldm
            (round uv lib at a)
            (s, app (client l []))
            rs
          ≡ returns (t, app (client k [])))
        × IsReady t k
        × (shown lib pretty k.history ≡ shown_after rs (shown lib pretty l.history))
  dialogue_lem s l [] pads same h good = (s, l, refl, h, refl)
  dialogue_lem s l (r ∷ rs) pads same h good =
      let (t, k, first, ready, one) = round_lem s l r pads same h good.0 in
      let (u, m, rest, still, all) = dialogue_lem t k rs pads same ready good.1 in
      (u, m, rw first rest, still, all ∙ ap (shown_after rs) one)
