-- ===== src/Base/Map.antt =====
-- `std::map` with integer keys, as an association list. The program only looks keys up and assigns
-- to them; it never walks a map.
use mathlib.Core.Path.{◌≡◌, refl}
use mathlib.Core.Option.{Option, none, some}
use mathlib.Core.List.{List, [], ◌∷◌}
use Prim.Native.Nat.{ℕ}
use native.Mathlib.Omega.{arith}
use libuv_net.Base.Tests.{◌==◌, if◌then◌else◌}

abbrev pub Map {ℓ} : Type ℓ → Type ℓ
Map V = List (ℕ × V)

module _ {ℓ} {V : Type ℓ} where
  -- m.find(key)
  unfoldable pub lookup : (key : ℕ) (entries : Map V) → Option V
  lookup key [] = none
  lookup key (entry ∷ entries) = if entry.0 == key then some entry.1 else lookup key entries

  -- m[key] = value
  unfoldable pub insert : (key : ℕ) (value : V) (entries : Map V) → Map V
  insert key value [] = (key, value) ∷ []
  insert key value (entry ∷ entries) =
      let rest = insert key value entries in
      if entry.0 == key then (key, value) ∷ entries else entry ∷ rest

  pub lookup-insert :
      (key other : ℕ) (value : V) (entries : Map V)
      → lookup other (insert key value entries)
        ≡ (if key == other then some value else lookup other entries)
  unfolding lookup insert
  lookup-insert key other value [] = refl
  lookup-insert key other value (entry ∷ entries) =
      ground (arith, lookup-insert key other value entries)
