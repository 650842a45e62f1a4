-- ===== src/Programs/Hex.antt =====
-- How tests/client_test.cpp reads bytes in hexadecimal, by `substr(i, 2)` and `std::stoi` with base 16.
use libuv_net.Base.{
  ℕ, ◌+◌, ◌-◌, ◌*◌, ◌/◌, ◌%◌, ◌<◌, ◌≡◌, refl, Bool, ◌&&◌, ◌||◌, List, [], ◌∷◌, Option, none, some,
  All, length, ltb, ◌==◌, if◌then◌else◌, arith,
}
use libuv_net.Base.Outcome.{Outcome, returns, throws, stuck, ◌>>=◌, Holds, Holds-bind, Holds-if}
use libuv_net.Base.Hex.{digit}
use libuv_net.Packet.{IsByte}

-- The value of a hexadecimal digit, small or capital.
abbrev pub hex_digit? : ℕ → Option ℕ
hex_digit? c =
    if ltb 47 c && ltb c 58
    then some (c - 48)
    else if ltb 96 c && ltb c 103
    then some (c - 87)
    else if ltb 64 c && ltb c 71
    then some (c - 55)
    else none

abbrev is_space : ℕ → Bool
is_space c = c == 32 || (ltb 8 c && ltb c 14)

-- The digits up to the first other character.
abbrev digits_from : ℕ → List ℕ → ℕ
digits_from n [] = n
digits_from n (c ∷ cs) = elim (hex_digit? c) [ some d ↦ digits_from (n * 16 + d) cs | none ↦ n ]

-- `invalid_argument` where there is no digit. A prefix "0x" needs a third character to matter.
abbrev unsigned : List ℕ → Outcome ℕ
unsigned [] = throws
unsigned (c ∷ cs) = elim (hex_digit? c) [ some d ↦ returns (digits_from d cs) | none ↦ throws ]

-- The conversions from `int` to `uint8_t`, of a number and of its opposite
abbrev cast : ℕ → ℕ
cast n = n % 256

abbrev cast_opposite : ℕ → ℕ
cast_opposite n = (256 - n % 256) % 256

abbrev signed : List ℕ → Outcome ℕ
signed [] = throws
signed (c ∷ cs) =
    if c == 45
    then (unsigned cs >>= λ n. returns (cast_opposite n))
    else if c == 43
    then (unsigned cs >>= λ n. returns (cast n))
    else unsigned (c ∷ cs) >>= λ n. returns (cast n)

-- `static_cast<uint8_t>(std::stoi(text, nullptr, 16))`, for a text of two characters at most
unfoldable pub stoi_byte : List ℕ → Outcome ℕ
stoi_byte [] = throws
stoi_byte (c ∷ cs) = let rest = stoi_byte cs in if is_space c then rest else signed (c ∷ cs)

-- Two characters at a time; an odd one at the end stands alone.
unfoldable pub parse_binary : List ℕ → Outcome (List ℕ)
parse_binary [] = returns []
parse_binary (c ∷ []) = stoi_byte (c ∷ []) >>= λ b. returns (b ∷ [])
parse_binary (c ∷ d ∷ rest) =
    stoi_byte (c ∷ d ∷ []) >>= λ b. parse_binary rest >>= λ bytes. returns (b ∷ bytes)

-- Bytes as a user types them, two digits each.
abbrev pub two_digits : List ℕ → List ℕ
two_digits [] = []
two_digits (b ∷ bytes) = digit (b / 16) ∷ digit (b % 16) ∷ two_digits bytes

hex_digit?-digit : (d : ℕ) → d < 16 → hex_digit? (digit d) ≡ some d
hex_digit?-digit d h = ground arith

stoi_byte-digit : (b : ℕ) → b < 256 → stoi_byte (digit (b / 16) ∷ digit (b % 16) ∷ []) ≡ returns b
unfolding stoi_byte
stoi_byte-digit b h = ground (arith, hex_digit?-digit (b / 16), hex_digit?-digit (b % 16))

pub parse_binary-two_digits :
    (bytes : List ℕ) → All IsByte bytes → parse_binary (two_digits bytes) ≡ returns bytes
unfolding parse_binary
parse_binary-two_digits [] h = refl
parse_binary-two_digits (b ∷ bytes) h =
    rw (stoi_byte-digit b h.0) (rw (parse_binary-two_digits bytes h.1) refl)

-- What a parse gives: bytes, one for two characters.
abbrev pub Fits : List ℕ → List ℕ → Type 0
Fits line bytes = All IsByte bytes × (length bytes ≡ (length line + 1) / 2)

bind-lt :
    (m : Outcome ℕ) (f : ℕ → ℕ) → ((n : ℕ) → f n < 256) → Holds IsByte (m >>= λ n. returns (f n))
bind-lt (returns n) f h = h n
bind-lt throws f h = tt
bind-lt stuck f h = tt

signed-IsByte : (cs : List ℕ) → Holds IsByte (signed cs)
signed-IsByte [] = tt
signed-IsByte (c ∷ cs) =
    Holds-if IsByte (c == 45) _ _ (bind-lt (unsigned cs) cast_opposite (λ n. omega arith)) (
      Holds-if IsByte (c == 43) _ _ (bind-lt (unsigned cs) cast (λ n. omega arith))
        (bind-lt (unsigned (c ∷ cs)) cast (λ n. omega arith)))

stoi_byte-IsByte : (cs : List ℕ) → Holds IsByte (stoi_byte cs)
unfolding stoi_byte
stoi_byte-IsByte [] = tt
stoi_byte-IsByte (c ∷ cs) =
    Holds-if IsByte (is_space c) _ _ (stoi_byte-IsByte cs) (signed-IsByte (c ∷ cs))

pub parse_binary-Fits : (line : List ℕ) → Holds (Fits line) (parse_binary line)
unfolding parse_binary
parse_binary-Fits [] = (tt, omega arith)
parse_binary-Fits (c ∷ []) =
    Holds-bind IsByte (Fits (c ∷ [])) (stoi_byte (c ∷ [])) _ (stoi_byte-IsByte (c ∷ []))
      (λ b h. ((h, tt), omega arith))
parse_binary-Fits (c ∷ d ∷ rest) =
    Holds-bind IsByte (Fits (c ∷ d ∷ rest)) (stoi_byte (c ∷ d ∷ [])) _
      (stoi_byte-IsByte (c ∷ d ∷ []))
      (λ b h.
        Holds-bind (Fits rest) (Fits (c ∷ d ∷ rest)) (parse_binary rest) _ (parse_binary-Fits rest)
          (λ bytes k. ((h, k.0), omega (arith, k.1))))
