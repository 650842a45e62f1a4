-- ===== src/Server/Total.antt =====
-- Exceptions and loops over the runs of src/server.cpp.
use libuv_net.Base.{
  ℕ, ◌≡◌, refl, sym, ap, ◌∙◌, List, [], Option, none, some, All, ◌==◌, if◌then◌else◌, Bool-cases,
  inl, inr, arith,
}
use libuv_net.Base.Outcome.{returns, Holds, Holds-both}
use libuv_net.Base.Map.{lookup}
use libuv_net.Packet.{IsByte, Packet}
use libuv_net.Packet.PacketType
use libuv_net.Framing.Prefix.{All-rest}
use libuv_net.Interceptor.{get_interceptor}
use libuv_net.Interceptor.Calm.{IsCalm, IsCalmOut}
use libuv_net.Uv.{Uv, Event}
use libuv_net.Session.Defs.{Session, PacketHandler, on_conn, accept}
use libuv_net.Session.Lifecycle.{Input, step}
use libuv_net.Session.Buffers.{step-Waits}
use libuv_net.Session.Delivery.{handler_for}
use libuv_net.Session.Robust.{HandlersReturn as SessionHandlersReturn}
use libuv_net.Session.Total.{IsGood, ReaderReturns, step_returns}
use libuv_net.Server.Calls.{ServerHandler, end_of, no_reaction}
use libuv_net.Server.Defs.{Server, hook, server_handler, settle}
use libuv_net.Server.Lifecycle.{Reach, prepare, ended, on_present, on_session}
use libuv_net.Server.Held.{Present, Held, IsGoodReach, IsGoodReach-Held}
use libuv_net.Server.Delivery.{welcomed}
use libuv_net.Server.Dispatch.{
  Hooked, send-Hooked, see_off-Hooked, prepare-Hooked, welcome-Hooked, step-Hooked, tables-prepare,
}

none-IsCalm : {V : Type 0} → IsCalm {V = V} []
unfolding get_interceptor lookup
none-IsCalm type bytes i found = absurd cc

none-IsCalmOut : {V : Type 0} → IsCalmOut {V = V} []
unfolding get_interceptor lookup
none-IsCalmOut type v i found = absurd cc

no_reader : ReaderReturns none
no_reader h bytes e = absurd (cc e)

end_of-returns :
    (o : Option ServerHandler) (p : Packet)
    → ((h : ServerHandler) → o ≡ some h → h.ends p ≡ returns tt)
    → end_of o p ≡ returns tt
end_of-returns none p h = refl
end_of-returns (some x) p h = h x refl

module _ {V : Type 0} (at : ℕ → Uv) where
  -- A session that no interceptor serves and whose buffer holds bytes.
  abbrev IsPlain : Session V → Type 0
  IsPlain t = Hooked at t.conn × All IsByte t.read_buffer

  step-Holds :
      (a : ℕ) (t : Session V) (i : Input V) → IsGood i → IsPlain t → Holds IsPlain (step (at a) t i)
  step-Holds a t i good h =
      Holds-both (λ u. Hooked at u.conn) (λ u. All IsByte u.read_buffer) (step (at a) t i)
        (step-Hooked at a t i h.0)
        (step-Waits (at a) (All IsByte) (λ b all. all) (λ b all. All-rest (at a).abi b all) t i h.1
          good)

  -- Every packet handler of the server returns: it neither throws nor goes on forever, and none is
  -- empty.
  abbrev pub HandlersReturn : Server V → Type 0
  HandlersReturn s =
      (p : Packet) (h : ServerHandler) → server_handler s p ≡ some h → h.ends p ≡ returns tt

  finds :
      (a : ℕ) (s : Server V) (p : Packet)
      → handler_for (welcomed at a s) p
        ≡ (if PacketType.heartbeat == p.type then some no_reaction else some (hook a s))
  unfolding lookup
  finds a s p = ground arith

  welcomed_return :
      (a : ℕ) (s : Server V) → HandlersReturn s → SessionHandlersReturn (welcomed at a s)
  welcomed_return a s quiet p h found = elim (Bool-cases (PacketType.heartbeat == p.type)) [
    | inl e ↦
        let same : no_reaction ≡ h = cc (rw e at (sym (finds a s p) ∙ found)) in
        ap (λ (j : PacketHandler). j.ends p) (sym same)
    | inr e ↦
        let same : hook a s ≡ h = cc (rw e at (sym (finds a s p) ∙ found)) in
        ap (λ (j : PacketHandler). j.ends p) (sym same)
        ∙ end_of-returns (server_handler s p) p (quiet p)
  ]

  on_present_returns :
      (a : ℕ) (i : Input V) (s : Server V) (o : Option (Session V))
      → IsGood i
      → HandlersReturn s
      → Present at IsPlain o
      → (t : Server V) × (on_present at a i s o ≡ returns t)
  unfolding on_present
  on_present_returns a i s none good quiet h = (s, refl)
  on_present_returns a i s (some t) good quiet h =
      let (u, e, kept, all) =
        step_returns (at a) (welcomed at a s) none none-IsCalm none-IsCalmOut
          (welcomed_return a s quiet) no_reader (on_conn (prepare a s) t) i
          (tables-prepare at a s t.conn h.0, h.0.unread) h.1 good in
      (ended at i a u (settle at a u s), rw e refl)

  Reach-IsPlain :
      (uv : Uv) (history : List Event) (s : Server V) (r : Reach uv at history s)
      → IsGoodReach uv at IsGood r
      → Held at IsPlain s
  unfolding accept
  Reach-IsPlain = λ uv.
      IsGoodReach-Held at IsPlain IsGood (λ a p t h. (send-Hooked at a p t.conn h.0, h.1))
        (λ a s t h. (see_off-Hooked at a s t.conn h.0, h.1)) step-Holds
        (λ a s t h. (prepare-Hooked at a s t.conn h.0, h.1)) uv
        (λ a peer s. (welcome-Hooked at a peer s, tt))

  -- In a state that is reached while all that came in on the sessions of the server were bytes, by
  -- callbacks that did not throw and any calls of its owner: if the packet handlers that the server
  -- has now return, whatever calls they make, and so do its handlers of the connection and the end
  -- of a session, then no callback of a session on bytes and no call on it throws, and each one
  -- ends.
  pub on_session_returns :
      (uv : Uv) (history : List Event) (s : Server V) (r : Reach uv at history s) (a : ℕ)
      (i : Input V)
      → HandlersReturn s
      → IsGoodReach uv at IsGood r
      → IsGood i
      → (t : Server V) × (on_session at a i s ≡ returns t)
  unfolding on_session
  on_session_returns uv history s r a i quiet past good =
      on_present_returns a i s (lookup a s.objects) good quiet (Reach-IsPlain uv history s r past a)
