-- ===== src/Packet/Words.antt =====
-- A `uint32_t` as it lies in memory.
use libuv_net.Base.{ℕ, ◌+◌, ◌*◌, ◌/◌, ◌%◌, ◌^◌, ◌<◌, ◌≡◌, List, [], ◌∷◌, get_or, arith}

pub data Endian : Type 0 where
  little big : Endian

unfoldable pub word_bytes : Endian → ℕ → List ℕ
word_bytes little n = n % 256 ∷ n / 2 ^ 8 % 256 ∷ n / 2 ^ 16 % 256 ∷ n / 2 ^ 24 % 256 ∷ []
word_bytes big n = n / 2 ^ 24 % 256 ∷ n / 2 ^ 16 % 256 ∷ n / 2 ^ 8 % 256 ∷ n % 256 ∷ []

-- The word that stands in four bytes, the first at the lowest address.
unfoldable pub word_of : Endian → ℕ → ℕ → ℕ → ℕ → ℕ
word_of little a b c d = a + 2 ^ 8 * b + 2 ^ 16 * c + 2 ^ 24 * d
word_of big a b c d = d + 2 ^ 8 * c + 2 ^ 16 * b + 2 ^ 24 * a

abbrev pub word_at : Endian → List ℕ → ℕ → ℕ
word_at e mem i =
    word_of e (get_or mem i 0) (get_or mem (i + 1) 0) (get_or mem (i + 2) 0) (get_or mem (i + 3) 0)

pub word_of-word_bytes : (e : Endian) (n : ℕ) → n < 2 ^ 32 → word_at e (word_bytes e n) 0 ≡ n
unfolding word_of word_bytes
word_of-word_bytes little n h = omega arith
word_of-word_bytes big n h = omega arith

pub word_bytes-word_of :
    (e : Endian) (a b c d : ℕ)
    → a < 256
    → b < 256
    → c < 256
    → d < 256
    → word_bytes e (word_of e a b c d) ≡ a ∷ b ∷ c ∷ d ∷ []
unfolding word_of word_bytes
word_bytes-word_of little a b c d ha hb hc hd = ground arith
word_bytes-word_of big a b c d ha hb hc hd = ground arith

pub word_of-lt :
    (e : Endian) (a b c d : ℕ) → a < 256 → b < 256 → c < 256 → d < 256 → word_of e a b c d < 2 ^ 32
unfolding word_of
word_of-lt little a b c d ha hb hc hd = omega arith
word_of-lt big a b c d ha hb hc hd = omega arith
