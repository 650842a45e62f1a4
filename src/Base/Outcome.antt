-- ===== src/Base/Outcome.antt =====
-- Code that may throw. `throws` is an exception that leaves the function; `stuck` is a function
-- that never returns: a handler that does not, or a loop of the model whose fuel ran out.
use mathlib.Core.Path.{◌≡◌, refl, sym, ap, ◌∙◌, fun_ext}
use mathlib.Core.Bool.{Bool, true, false}
use libuv_net.Base.Tests.{if◌then◌else◌}
use mathlib.Core.List.{List, [], ◌∷◌, ◌++◌}

pub data Outcome {ℓ} (A : Type ℓ) : Type ℓ where
  returns : A → Outcome A
  throws : Outcome A
  stuck : Outcome A

infixl 5 ◌>>=◌
abbrev pub ◌>>=◌ {ℓ κ} : {A : Type ℓ} {B : Type κ} → Outcome A → (A → Outcome B) → Outcome B
returns a >>= f = f a
throws >>= f = throws
stuck >>= f = stuck

-- One step for each element, until one throws.
abbrev pub foldm {ℓ κ} : {S : Type ℓ} {A : Type κ} → (S → A → Outcome S) → S → List A → Outcome S
foldm f s [] = returns s
foldm f s (x ∷ xs) = f s x >>= λ s'. foldm f s' xs

pub bind_assoc {ℓ κ μ} :
    {A : Type ℓ} {B : Type κ} {C : Type μ} (m : Outcome A) (f : A → Outcome B) (g : B → Outcome C)
    → (m >>= f >>= g) ≡ (m >>= λ a. f a >>= g)
bind_assoc (returns a) f g = refl
bind_assoc throws f g = refl
bind_assoc stuck f g = refl

-- What holds of every value that is returned.
abbrev pub Holds {ℓ κ} : {A : Type ℓ} → (A → Type κ) → Outcome A → Type κ
Holds P (returns a) = P a
Holds P throws = Unit {κ}
Holds P stuck = Unit {κ}

pub any {ℓ} : {A : Type ℓ} (m : Outcome A) → Holds (λ _. Unit {0}) m
any (returns a) = tt
any throws = tt
any stuck = tt

pub Holds-bind {ℓ κ μ ν} :
    {A : Type ℓ} {B : Type κ} (P : A → Type μ) (Q : B → Type ν) (m : Outcome A) (f : A → Outcome B)
    → Holds P m
    → ((a : A) → P a → Holds Q (f a))
    → Holds Q (m >>= f)
Holds-bind P Q (returns a) f h k = k a h
Holds-bind P Q throws f h k = tt
Holds-bind P Q stuck f h k = tt

pub Holds-both {ℓ κ μ} :
    {A : Type ℓ} (P : A → Type κ) (Q : A → Type μ) (m : Outcome A)
    → Holds P m
    → Holds Q m
    → Holds (λ a. P a × Q a) m
Holds-both P Q (returns a) h k = (h, k)
Holds-both P Q throws h k = tt
Holds-both P Q stuck h k = tt

pub Holds-if {ℓ κ} :
    {A : Type ℓ} (P : A → Type κ) (b : Bool) (m n : Outcome A)
    → Holds P m
    → Holds P n
    → Holds P (if b then m else n)
Holds-if P true m n h k = h
Holds-if P false m n h k = k

pub Holds-of_returns {ℓ κ} :
    {A : Type ℓ} (P : A → Type κ) {a : A} (m : Outcome A) → Holds P m → m ≡ returns a → P a
Holds-of_returns P m h e = rw e at h

pub bind_congr {ℓ κ} :
    {A : Type ℓ} {B : Type κ} (m : Outcome A) {f g : A → Outcome B}
    → ((a : A) → f a ≡ g a)
    → (m >>= f) ≡ (m >>= g)
bind_congr m h = ap (λ k. m >>= k) (fun_ext h)

pub foldm-append {ℓ κ} :
    {S : Type ℓ} {A : Type κ} (f : S → A → Outcome S) (s : S) (xs ys : List A)
    → foldm f s (xs ++ ys) ≡ (foldm f s xs >>= λ s'. foldm f s' ys)
foldm-append f s [] ys = refl
foldm-append f s (x ∷ xs) ys =
    bind_congr (f s x) (λ s'. foldm-append f s' xs ys)
    ∙ sym (bind_assoc (f s x) (λ s'. foldm f s' xs) (λ s'. foldm f s' ys))
