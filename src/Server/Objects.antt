-- ===== src/Server/Objects.antt =====
-- Lists of addresses without repetition, and the memory of a server before and after a call on one
-- of its sessions.
use libuv_net.Base.{
  ℕ, ◌≡◌, refl, sym, ◌∙◌, Bool, true, false, ◌||◌, List, [], ◌∷◌, ◌++◌, ◌==◌, if◌then◌else◌,
  Bool-cases, Option-cases, inl, inr, arith,
}
use libuv_net.Base.Map.{lookup, lookup-insert}
use libuv_net.Session.Defs.{Conn, on_conn}
use libuv_net.Server.Defs.{Server, with_conn, on_object}
use libuv_net.Server.Id.{remove}

abbrev pub mem : ℕ → List ℕ → Bool
mem a [] = false
mem a (b ∷ bs) = b == a || mem a bs

abbrev pub Distinct : List ℕ → Type 0
Distinct [] = Unit
Distinct (a ∷ more) = (mem a more ≡ false) × Distinct more

pub eq-of_test : (a b : ℕ) → (a == b) ≡ true → a ≡ b
eq-of_test a b h = ground arith

pub mem-remove :
    (a b : ℕ) (bs : List ℕ) → mem b (remove a bs) ≡ (if a == b then false else mem b bs)
mem-remove a b [] = ground arith
mem-remove a b (x ∷ xs) = ground (arith, mem-remove a b xs)

pub Distinct-remove : (a : ℕ) (bs : List ℕ) → Distinct bs → Distinct (remove a bs)
Distinct-remove a [] h = tt
Distinct-remove a (x ∷ xs) h = elim (Bool-cases (x == a)) [
  | inl e ↦ rw e (Distinct-remove a xs h.1)
  | inr e ↦ rw e (ground (arith, mem-remove a x xs, h.0), Distinct-remove a xs h.1)
]

pub mem-append : (a b : ℕ) (bs : List ℕ) → mem a (bs ++ b ∷ []) ≡ (mem a bs || b == a)
mem-append a b [] = ground arith
mem-append a b (x ∷ xs) = ground (arith, mem-append a b xs)

pub Distinct-append :
    (a : ℕ) (bs : List ℕ) → Distinct bs → mem a bs ≡ false → Distinct (bs ++ a ∷ [])
Distinct-append a [] h k = (refl, tt)
Distinct-append a (x ∷ xs) h k =
    (ground (arith, mem-append x a xs, h.0), Distinct-append a xs h.1 (ground (arith, k)))

module _ {V : Type 0} (f : Conn V → Conn V) (s : Server V) where
  pub lookup-with_conn :
      (a b : ℕ)
      → lookup b (with_conn a f s).objects
        ≡ (if a == b then on_object f (lookup b s.objects) else lookup b s.objects)
  unfolding with_conn
  lookup-with_conn a b = elim (Option-cases (lookup a s.objects)) [
    | inl gone ↦ elim (Bool-cases (a == b)) [
      | inl e ↦ cc (gone, eq-of_test a b e, e)
      | inr e ↦ rw (gone, e)
    ]
    | inr (t, found) ↦ rw found (
        lookup-insert a b (on_conn f t) s.objects ∙ elim (Bool-cases (a == b)) [
          | inl e ↦ rw e (rw (sym (eq-of_test a b e)) (rw found))
          | inr e ↦ rw e
        ])
  ]

  -- Only the memory changes.
  pub with_conn-rest : (a : ℕ) → with_conn a f s ≡ record s { objects = (with_conn a f s).objects }
  unfolding with_conn
  with_conn-rest a = elim (Option-cases (lookup a s.objects)) [
    | inl gone ↦ rw gone
    | inr (t, found) ↦ rw found
  ]
