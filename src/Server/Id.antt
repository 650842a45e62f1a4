-- ===== src/Server/Id.antt =====
-- The id of a session in src/session.cpp: the address of the object in hexadecimal, at least eight
-- digits wide, filled up with zeros; and the search of src/server.cpp by id. A text is the list of
-- its character codes.
use libuv_net.Base.{
  ℕ, zero, suc, ◌-◌, ◌^◌, ◌<◌, ◌≡◌, refl, sym, ap, ◌∙◌, List, [], ◌∷◌, length, ◌==◌, Bool, true,
  false, Option, none, some, if◌then◌else◌, arith,
}
use libuv_net.Base.Hex.{hex, value_from, value_from-hex}

abbrev fill : ℕ → List ℕ → List ℕ
fill zero text = text
fill (suc n) text = 48 ∷ fill n text

-- A `uintptr_t` of 64 bits has sixteen digits at most.
unfoldable pub id_of : ℕ → List ℕ
unfolding hex
id_of address = let text = hex 16 address in fill (8 - length text) text

-- `std::remove` and `erase`
abbrev pub remove : ℕ → List ℕ → List ℕ
remove a [] = []
remove a (b ∷ bs) = let rest = remove a bs in if b == a then rest else b ∷ rest

unfoldable pub same_text : List ℕ → List ℕ → Bool
same_text [] [] = true
same_text [] (d ∷ ds) = false
same_text (c ∷ cs) [] = false
same_text (c ∷ cs) (d ∷ ds) = let rest = same_text cs ds in if c == d then rest else false

-- The first session of that id.
unfoldable pub find_session : List ℕ → List ℕ → Option ℕ
unfolding same_text
find_session id [] = none
find_session id (a ∷ more) =
    let rest = find_session id more in if same_text (id_of a) id then some a else rest

value_from-fill : (n : ℕ) (text : List ℕ) → value_from 0 (fill n text) ≡ value_from 0 text
unfolding value_from
value_from-fill zero text = refl
value_from-fill (suc n) text = value_from-fill n text

value_from-id_of : (a : ℕ) → a < 2 ^ 64 → value_from 0 (id_of a) ≡ a
unfolding id_of
value_from-id_of a h = value_from-fill _ (hex 16 a) ∙ value_from-hex 16 a (omega arith)

-- Two objects at different addresses of 64 bits have different ids.
pub id_of-injective : (a b : ℕ) → a < 2 ^ 64 → b < 2 ^ 64 → id_of a ≡ id_of b → a ≡ b
id_of-injective a b ha hb e =
    sym (value_from-id_of a ha) ∙ ap (value_from 0) e ∙ value_from-id_of b hb
