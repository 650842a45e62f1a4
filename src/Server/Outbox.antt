-- ===== src/Server/Outbox.antt =====
-- What a handler of src/server.cpp asks of the sessions other than its own, and what becomes of it.
use libuv_net.Base.{
  ℕ, ◌≡◌, refl, sym, ap, ◌∙◌, Bool, true, false, List, [], ◌∷◌, ◌++◌, map, append_assoc, append-nil,
  some, ◌==◌, if◌then◌else◌, Bool-cases, inl, inr, arith,
}
use libuv_net.Base.Map.{lookup, insert, lookup-insert}
use libuv_net.Packet.{Packet}
use libuv_net.Uv.{Uv}
use libuv_net.Session.Defs.{Conn, Session, send, run_calls}
use libuv_net.Server.Id.{remove}
use libuv_net.Server.Calls.{send_on}
use libuv_net.Server.Defs.{Server, on_object, send_all, deliver, settle}
use libuv_net.Server.Objects.{mem, Distinct, mem-remove, Distinct-remove, eq-of_test}
use libuv_net.Server.Sending.{lookup-send_all}

abbrev pub to_each : Packet → List ℕ → List (ℕ × Packet)
to_each q = map (λ b. (b, q))

module _ {V : Type 0} (uv : Uv) (a : ℕ) (q : Packet) where
  -- Asks that the packet be sent on other sessions.
  abbrev pub asking : List ℕ → Conn V → Conn V
  asking bs c = record c { outbox = c.outbox ++ to_each q bs }

  send-asking : (bs : List ℕ) (c : Conn V) → send uv q (asking bs c) ≡ asking bs (send uv q c)
  unfolding send
  send-asking bs c = ground arith

  -- A broadcast from a handler: one send if the session is on the list, the rest is asked for.
  pub run_calls-send_on :
      (bs : List ℕ) (c : Conn V)
      → Distinct bs
      → run_calls uv (map (send_on a q) bs) c
        ≡ asking (remove a bs) (if mem a bs then send uv q c else c)
  unfolding run_calls
  run_calls-send_on [] c h = ap (λ o. record c { outbox = o }) (sym (append-nil c.outbox))
  run_calls-send_on (b ∷ bs) c h = elim (Bool-cases (b == a)) [
    | inl e ↦
        let unlisted : mem a bs ≡ false = cc (eq-of_test b a e, h.0) in
        rw e (run_calls-send_on bs (send uv q c) h.1 ∙ rw unlisted)
    | inr e ↦ rw e (
        run_calls-send_on bs (asking (b ∷ []) c) h.1
        ∙ rw (send-asking (b ∷ []) c) (later (mem a bs)))
  ]
    where
      later :
          (x : Bool)
          → asking (remove a bs) (if x then asking (b ∷ []) (send uv q c) else asking (b ∷ []) c)
            ≡ asking (b ∷ remove a bs) (if x then send uv q c else c)
      later true =
          ap (λ o. record (send uv q c) { outbox = o })
            (append_assoc (send uv q c).outbox ((b, q) ∷ []) (to_each q (remove a bs)))
      later false =
          ap (λ o. record c { outbox = o })
            (append_assoc c.outbox ((b, q) ∷ []) (to_each q (remove a bs)))

pub outbox-sent :
    {V : Type 0} (uv : Uv) (q : Packet) (x : Bool) (c : Conn V)
    → (if x then send uv q c else c).outbox ≡ c.outbox
unfolding send
outbox-sent uv q x c = ground arith

module _ {V : Type 0} (at : ℕ → Uv) (q : Packet) where
  deliver-to_each : (bs : List ℕ) (s : Server V) → deliver at (to_each q bs) s ≡ send_all at q bs s
  unfolding deliver send_all
  deliver-to_each [] s = refl
  deliver-to_each (b ∷ bs) s = deliver-to_each bs _

  -- The memory once the session at `a` has settled that asks for a send on each other one.
  pub lookup-settle :
      (a : ℕ) (u : Session V) (s : Server V) (b : ℕ)
      → Distinct s.sessions
      → u.outbox ≡ to_each q (remove a s.sessions)
      → lookup b (settle at a u s).objects ≡ (
          if a == b
          then some u
          else if mem b s.sessions
          then on_object (send (at b) q) (lookup b s.objects)
          else lookup b s.objects)
  unfolding settle
  lookup-settle a u s b once asked =
      let t = record s { objects = insert a u s.objects } in
      ap (λ out. lookup b (deliver at out t).objects) asked
      ∙ ap (λ (r : Server V). lookup b r.objects) (deliver-to_each (remove a s.sessions) t)
      ∙ lookup-send_all at q b (remove a s.sessions) t (Distinct-remove a s.sessions once)
      ∙ elim (Bool-cases (a == b)) [
        | inl e ↦ rw (mem-remove a b s.sessions, lookup-insert a b u s.objects) (rw e)
        | inr e ↦ rw (mem-remove a b s.sessions, lookup-insert a b u s.objects) (rw e)
      ]
