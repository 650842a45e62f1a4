-- ===== src/Server/View.antt =====
-- What the users of src/server.cpp see of its sessions, apart from the order of the list: which
-- addresses are listed, and the object at each address.
use mathlib.Core.Path.{fun_ext}
use libuv_net.Base.{
  ℕ, ◌^◌, ◌<◌, ◌≡◌, refl, ap, ◌∙◌, Bool, true, false, ◌&&◌, List, [], ◌∷◌, Option, none, some, ◌==◌,
  if◌then◌else◌, Bool-cases, inl, inr, arith,
}
use libuv_net.Base.Map.{lookup}
use libuv_net.Packet.{Packet}
use libuv_net.Uv.{Uv, Event}
use libuv_net.Session.Defs.{Session, send}
use libuv_net.Server.Id.{id_of, id_of-injective, same_text, find_session}
use libuv_net.Server.Defs.{Server, on_object, broadcast, send_to, send_found}
use libuv_net.Server.Lifecycle.{Reach}
use libuv_net.Server.Objects.{mem, eq-of_test, with_conn-rest}
use libuv_net.Server.Sessions.{Reach-IsServed}
use libuv_net.Server.Sending.{eq-of_same_text, broadcast_lem, send_to_lem}

pub record View (V : Type 0) : Type 0 where
  pub listed : ℕ → Bool
  pub memory : ℕ → Option (Session V)

module _ {V : Type 0} where
  abbrev pub view : Server V → View V
  view s = record { listed = λ a. mem a s.sessions; memory = λ a. lookup a s.objects }

  abbrev make : (ℕ → Bool) → (ℕ → Option (Session V)) → View V
  make listed memory = record { listed = listed; memory = memory }

  view-eq :
      (v w : View V)
      → ((a : ℕ) → v.listed a ≡ w.listed a)
      → ((a : ℕ) → v.memory a ≡ w.memory a)
      → v ≡ w
  view-eq v w h k = ap (λ f. make f v.memory) (fun_ext h) ∙ ap (λ f. make w.listed f) (fun_ext k)

  -- The packet is sent once on each session that is chosen.
  abbrev pub send_where : (ℕ → Uv) → Packet → (ℕ → Bool) → View V → View V
  send_where at p chosen v = record v {
    memory = λ b. if chosen b then on_object (send (at b) p) (v.memory b) else v.memory b;
  }

-- The id of an object that is not listed finds nothing.
find_session-unlisted :
    (a : ℕ) (bs : List ℕ)
    → a < 2 ^ 64
    → ((b : ℕ) → mem b bs ≡ true → b < 2 ^ 64)
    → mem a bs ≡ false
    → find_session (id_of a) bs ≡ none
unfolding find_session
find_session-unlisted a [] word words gone = refl
find_session-unlisted a (b ∷ bs) word words gone =
    elim (Bool-cases (same_text (id_of b) (id_of a))) [
      | inl e ↦
          let same : b ≡ a =
            id_of-injective b a (words b (ground arith)) word
              (eq-of_same_text (id_of b) (id_of a) e) in
          absurd (ground (arith, same, gone))
      | inr e ↦ rw e (
          find_session-unlisted a bs word (λ c k. words c (ground (arith, k)))
            (ground (arith, gone)))
    ]

module _ {V : Type 0} (at : ℕ → Uv) (p : Packet) where
  send_to-unlisted :
      (s : Server V) (a : ℕ)
      → find_session (id_of a) s.sessions ≡ none
      → send_to at (id_of a) p s ≡ s
  unfolding send_to send_found
  send_to-unlisted s a gone = rw gone refl

  at_same :
      (a b : ℕ) (o : Option (Session V))
      → (if a == b then on_object (send (at a) p) o else o)
        ≡ (if a == b then on_object (send (at b) p) o else o)
  at_same a b o = elim (Bool-cases (a == b)) [
    | inl e ↦ rw e (ap (λ c. on_object (send (at c) p) o) (eq-of_test a b e))
    | inr e ↦ rw e refl
  ]

  send_found-sessions : (o : Option ℕ) (s : Server V) → (send_found at o p s).sessions ≡ s.sessions
  unfolding send_found
  send_found-sessions none s = refl
  send_found-sessions (some a) s =
      ap (λ (t : Server V). t.sessions) (with_conn-rest (send (at a) p) s a)

  send_to-sessions : (id : List ℕ) (s : Server V) → (send_to at id p s).sessions ≡ s.sessions
  unfolding send_to
  send_to-sessions id s = send_found-sessions (find_session id s.sessions) s

  -- In a reachable state, on what is seen apart from the order of the list: `broadcast` sends the
  -- packet once on each listed session, `send_to` with the id of an address of 64 bits sends it once
  -- on the session there if that is listed, and does nothing if it is not; neither changes anything
  -- else.
  pub sends_refine :
      (uv : Uv) (history : List Event) (s : Server V) (a : ℕ)
      → Reach uv at history s
      → a < 2 ^ 64
      → (view (broadcast at p s) ≡ send_where at p (view s).listed (view s))
        × (view (send_to at (id_of a) p s)
            ≡ send_where at p (λ b. (view s).listed a && a == b) (view s))
  sends_refine uv history s a r word =
      let served = Reach-IsServed uv at history s r in
      (
        view-eq _ _ (λ b. ap (mem b) (broadcast_lem at p uv history s b r).1)
            (λ b. (broadcast_lem at p uv history s b r).0),
        view-eq (view (send_to at (id_of a) p s))
            (send_where at p (λ b. (view s).listed a && a == b) (view s))
            (λ b. ap (mem b) (send_to-sessions (id_of a) s))
            (λ b. elim (Bool-cases (mem a s.sessions)) [
              | inl e ↦
                  rw e (send_to_lem at p uv history s a b r e ∙ at_same a b (lookup b s.objects))
              | inr e ↦ rw e (
                  ap (λ (t : Server V). lookup b t.objects)
                    (send_to-unlisted s a (find_session-unlisted a s.sessions word served.words e)))
            ]),
      )
