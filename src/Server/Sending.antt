-- ===== src/Server/Sending.antt =====
-- Who gets what: `broadcast` and `send_to` of src/server.cpp.
use libuv_net.Base.{
  ℕ, ◌^◌, ◌<◌, ◌≡◌, ◌⊎◌, refl, ap, ◌∙◌, true, false, List, [], ◌∷◌, some, ◌==◌, if◌then◌else◌,
  Bool-cases, inl, inr, arith,
}
use libuv_net.Base.Map.{lookup}
use libuv_net.Packet.{Packet}
use libuv_net.Uv.{Uv, Event}
use libuv_net.Session.Defs.{send}
use libuv_net.Server.Id.{id_of, id_of-injective, same_text, find_session}
use libuv_net.Server.Defs.{Server, with_conn, on_object, send_all, send_found, broadcast, send_to}
use libuv_net.Server.Lifecycle.{Reach}
use libuv_net.Server.Objects.{mem, Distinct, eq-of_test, lookup-with_conn, with_conn-rest}
use libuv_net.Server.Sessions.{Reach-IsServed}

same_text_self : (cs : List ℕ) → same_text cs cs ≡ true
unfolding same_text
same_text_self [] = refl
same_text_self (c ∷ cs) = ground (arith, same_text_self cs)

pub eq-of_same_text : (cs ds : List ℕ) → same_text cs ds ≡ true → cs ≡ ds
unfolding same_text
eq-of_same_text [] [] h = refl
eq-of_same_text [] (d ∷ ds) h = cc h
eq-of_same_text (c ∷ cs) [] h = cc h
eq-of_same_text (c ∷ cs) (d ∷ ds) h = ground (arith, eq-of_same_text cs ds)

-- A listed session is found by its id.
find_session-listed :
    (a : ℕ) (bs : List ℕ)
    → ((b : ℕ) → mem b bs ≡ true → b < 2 ^ 64)
    → mem a bs ≡ true
    → find_session (id_of a) bs ≡ some a
unfolding find_session
find_session-listed a [] words h = cc h
find_session-listed a (b ∷ bs) words h = elim (Bool-cases (same_text (id_of b) (id_of a))) [
  | inl e ↦ rw e (
      ap some (
        id_of-injective b a (words b (ground arith)) (words a h)
          (eq-of_same_text (id_of b) (id_of a) e)))
  | inr e ↦ rw e (
      find_session-listed a bs (λ c k. words c (ground (arith, k))) (later (Bool-cases (b == a)) e))
]
  where
    later :
        (b == a ≡ true) ⊎ (b == a ≡ false) → same_text (id_of b) (id_of a) ≡ false → mem a bs ≡ true
    later (inl k) e = cc (ap id_of (eq-of_test b a k), same_text_self (id_of a), e)
    later (inr k) e = ground (arith, h, k)

module _ {V : Type 0} (at : ℕ → Uv) (p : Packet) where
  pub lookup-send_all :
      (b : ℕ) (bs : List ℕ) (s : Server V)
      → Distinct bs
      → lookup b (send_all at p bs s).objects
        ≡ (if mem b bs then on_object (send (at b) p) (lookup b s.objects) else lookup b s.objects)
  unfolding send_all
  lookup-send_all b [] s h = refl
  lookup-send_all b (a ∷ bs) s h =
      lookup-send_all b bs (with_conn a (send (at a) p) s) h.1
      ∙ rw (lookup-with_conn (send (at a) p) s a b)
          (elim (Bool-cases (a == b)) [ inl e ↦ cc (e, eq-of_test a b e, h.0) | inr e ↦ rw e ])

  send_all-sessions : (bs : List ℕ) (s : Server V) → (send_all at p bs s).sessions ≡ s.sessions
  unfolding send_all
  send_all-sessions [] s = refl
  send_all-sessions (a ∷ bs) s =
      send_all-sessions bs (with_conn a (send (at a) p) s)
      ∙ ap (λ (t : Server V). t.sessions) (with_conn-rest (send (at a) p) s a)

  -- In a reachable state, `broadcast` sends the packet once to each listed session, leaves every
  -- other object alone, and keeps the list.
  pub broadcast_lem :
      (uv : Uv) (history : List Event) (s : Server V) (b : ℕ)
      → Reach uv at history s
      → (lookup b (broadcast at p s).objects ≡ (
          if mem b s.sessions
          then on_object (send (at b) p) (lookup b s.objects)
          else lookup b s.objects))
        × ((broadcast at p s).sessions ≡ s.sessions)
  unfolding broadcast
  broadcast_lem uv history s b r = (
    lookup-send_all b s.sessions s (Reach-IsServed uv at history s r).distinct,
    send_all-sessions s.sessions s,
  )

  -- In a reachable state, `send_to` with the id of a listed session sends the packet once to that
  -- session, and leaves every other object alone.
  pub send_to_lem :
      (uv : Uv) (history : List Event) (s : Server V) (a b : ℕ)
      → Reach uv at history s
      → mem a s.sessions ≡ true
      → lookup b (send_to at (id_of a) p s).objects
        ≡ (if a == b then on_object (send (at a) p) (lookup b s.objects) else lookup b s.objects)
  unfolding send_to send_found
  send_to_lem uv history s a b r listed =
      rw (find_session-listed a s.sessions (Reach-IsServed uv at history s r).words listed)
        (lookup-with_conn (send (at a) p) s a b)
