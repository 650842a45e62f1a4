-- ===== src/Server/Served.antt =====
-- What holds of the list of sessions of src/server.cpp, and what keeps it.
use libuv_net.Base.{
  ℕ, ◌^◌, ◌<◌, ◌≡◌, refl, sym, ap, ◌∙◌, Bool, true, false, List, [], ◌∷◌, ◌++◌, Option, none, some,
  ◌==◌, ◌||◌, Bool-cases, inl, inr, arith,
}
use libuv_net.Base.Map.{lookup, insert, lookup-insert}
use libuv_net.Uv.{Uv}
use libuv_net.Session.Defs.{Conn, Session}
use libuv_net.Server.Id.{remove}
use libuv_net.Server.Defs.{Server, with_conn, on_object, listen, stop_listening, start, stop}
use libuv_net.Server.Objects.{
  mem, Distinct, eq-of_test, mem-remove, Distinct-remove, mem-append, Distinct-append,
  lookup-with_conn, with_conn-rest,
}

abbrev pub is_some {ℓ} : {A : Type ℓ} → Option A → Bool
is_some (some x) = true
is_some none = false

-- Every session is listed once, and stands in memory at an address of 64 bits.
pub record IsServed {V : Type 0} (s : Server V) : Type 0 where
  pub distinct : Distinct s.sessions
  pub held : (a : ℕ) → mem a s.sessions ≡ true → is_some (lookup a s.objects) ≡ true
  pub words : (a : ℕ) → mem a s.sessions ≡ true → a < 2 ^ 64

still_listed : (a b : ℕ) (bs : List ℕ) → mem b (remove a bs) ≡ true → mem b bs ≡ true
still_listed a b bs k = ground (arith, mem-remove a b bs, k)

module _ {V : Type 0} where
  pub listen-rest :
      (uv : Uv) (host : List ℕ) (port : ℕ) (s : Server V)
      → ((listen uv host port s).sessions ≡ s.sessions)
        × ((listen uv host port s).objects ≡ s.objects)
  unfolding listen
  listen-rest uv host port s = ground arith

  pub stop_listening-rest :
      (s : Server V)
      → ((stop_listening s).sessions ≡ s.sessions) × ((stop_listening s).objects ≡ s.objects)
  unfolding stop_listening
  stop_listening-rest s = ground arith

  pub start-rest :
      (s : Server V) → ((start s).1.sessions ≡ s.sessions) × ((start s).1.objects ≡ s.objects)
  unfolding start
  start-rest s = ground arith

  pub stop-rest : (s : Server V) → ((stop s).sessions ≡ s.sessions) × ((stop s).objects ≡ s.objects)
  unfolding stop
  stop-rest s = ground arith

  -- The memory may change as long as what stood there still stands.
  pub IsServed-objects :
      (s t : Server V)
      → t.sessions ≡ s.sessions
      → ((a : ℕ) → is_some (lookup a s.objects) ≡ true → is_some (lookup a t.objects) ≡ true)
      → IsServed s
      → IsServed t
  IsServed-objects s t e keeps h = record {
    distinct = rw e h.distinct;
    held = λ a k. keeps a (h.held a (rw e at k));
    words = λ a k. h.words a (rw e at k);
  }

  pub same_tables-IsServed :
      (s t : Server V) → t.sessions ≡ s.sessions → t.objects ≡ s.objects → IsServed s → IsServed t
  same_tables-IsServed s t e f = IsServed-objects s t e (λ a k. rw f k)

  is_some-on_object :
      (f : Conn V → Conn V) (o : Option (Session V)) → is_some (on_object f o) ≡ is_some o
  is_some-on_object f (some t) = refl
  is_some-on_object f none = refl

  pub with_conn-IsServed :
      (a : ℕ) (f : Conn V → Conn V) (s : Server V) → IsServed s → IsServed (with_conn a f s)
  with_conn-IsServed a f s =
      IsServed-objects s (with_conn a f s)
        (ap (λ (t : Server V). t.sessions) (with_conn-rest f s a))
        (λ b k. rw (lookup-with_conn f s a b) (elim (Bool-cases (a == b)) [
          | inl e ↦ rw e (is_some-on_object f (lookup b s.objects) ∙ k)
          | inr e ↦ rw e k
        ]))

  pub put-IsServed :
      (a : ℕ) (u : Session V) (s : Server V)
      → IsServed s
      → IsServed (record s { objects = insert a u s.objects })
  put-IsServed a u s =
      IsServed-objects s (record s { objects = insert a u s.objects }) refl
        (λ b k.
          rw (lookup-insert a b u s.objects)
            (elim (Bool-cases (a == b)) [ inl e ↦ rw e | inr e ↦ rw e k ]))

  new_member :
      (a b : ℕ) (s : Server V)
      → mem b (s.sessions ++ a ∷ []) ≡ true
      → mem b s.sessions || a == b ≡ true
  new_member a b s k = sym (mem-append b a s.sessions) ∙ k

  pub put_new-IsServed :
      (a : ℕ) (u : Session V) (s : Server V)
      → lookup a s.objects ≡ none
      → a < 2 ^ 64
      → IsServed s
      → IsServed (record s { sessions = s.sessions ++ a ∷ []; objects = insert a u s.objects })
  put_new-IsServed a u s fresh word h =
      let unlisted : mem a s.sessions ≡ false = elim (Bool-cases (mem a s.sessions)) [
        | inl e ↦ cc (h.held a e, fresh)
        | inr e ↦ e
      ] in
      record {
        distinct = Distinct-append a s.sessions h.distinct unlisted;
        held = λ b k. rw (lookup-insert a b u s.objects) (elim (Bool-cases (a == b)) [
          | inl e ↦ rw e
          | inr e ↦ rw e (h.held b (ground (arith, new_member a b s k, e)))
        ]);
        words = λ b k. elim (Bool-cases (a == b)) [
          | inl e ↦ omega (arith, eq-of_test a b e, word)
          | inr e ↦ h.words b (ground (arith, new_member a b s k, e))
        ];
      }

  pub remove-IsServed :
      (a : ℕ) (s : Server V) → IsServed s → IsServed (record s { sessions = remove a s.sessions })
  remove-IsServed a s h = record {
    distinct = Distinct-remove a s.sessions h.distinct;
    held = λ b k. h.held b (still_listed a b s.sessions k);
    words = λ b k. h.words b (still_listed a b s.sessions k);
  }
