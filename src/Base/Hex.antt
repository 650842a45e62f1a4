-- ===== src/Base/Hex.antt =====
-- Hexadecimal digits, as a `std::stringstream` or `std::cout` prints them after `std::hex`. A text is
-- the list of its character codes.
use Prim.Native.Nat.{ℕ, zero, suc, ◌+◌, ◌-◌, ◌*◌, ◌/◌, ◌%◌, ◌<◌}
use mathlib.Core.Path.{◌≡◌, refl}
use mathlib.Core.List.{List, [], ◌∷◌, ◌++◌}
use native.Mathlib.Omega.{arith}
use libuv_net.Base.Tests.{ltb, if◌then◌else◌}

abbrev pub digit : ℕ → ℕ
digit d = if ltb d 10 then 48 + d else 87 + d

unfoldable pub hex : ℕ → ℕ → List ℕ
hex zero n = []
hex (suc fuel) n =
    let more = hex fuel (n / 16) in if ltb n 16 then digit n ∷ [] else more ++ digit (n % 16) ∷ []

-- The number that a text stands for.
abbrev pub digit_value : ℕ → ℕ
digit_value c = if ltb c 58 then c - 48 else c - 87

unfoldable pub value_from : ℕ → List ℕ → ℕ
value_from acc [] = acc
value_from acc (c ∷ cs) = value_from (acc * 16 + digit_value c) cs

value_from-append :
    (acc : ℕ) (xs : List ℕ) (c : ℕ)
    → value_from acc (xs ++ c ∷ []) ≡ value_from acc xs * 16 + digit_value c
unfolding value_from
value_from-append acc [] c = refl
value_from-append acc (x ∷ xs) c = value_from-append (acc * 16 + digit_value x) xs c

abbrev pub limit : ℕ → ℕ
limit zero = 1
limit (suc fuel) = 16 * limit fuel

pub digit_value-digit : (d : ℕ) → d < 16 → digit_value (digit d) ≡ d
digit_value-digit d h = ground arith

pub value_from-hex : (fuel n : ℕ) → n < limit fuel → value_from 0 (hex fuel n) ≡ n
unfolding value_from hex
value_from-hex zero n h = omega arith
value_from-hex (suc fuel) n h = ground (
  arith,
  value_from-append 0 (hex fuel (n / 16)) (digit (n % 16)),
  value_from-hex fuel (n / 16),
  digit_value-digit (n % 16),
  digit_value-digit n,
)
