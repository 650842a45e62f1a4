-- ===== src/Interceptor/Defs.antt =====
-- `Interceptor` and `InterceptorManager` of include/libuv_net/message.hpp. `V` is what a non-empty
-- `std::any` may hold; an empty one is `none`.

use libuv_net.Base.{ℕ, List, [], Option, none, some}
use libuv_net.Base.Outcome.{Outcome, returns}
use libuv_net.Base.Map.{Map, lookup, insert}

-- The virtual methods of one interceptor. Either conversion may throw.
pub record Interceptor (V : Type 0) : Type 0 where
  pub serialize : V → Outcome (List ℕ)
  pub deserialize : List ℕ → Outcome (Option V)
  pub type : ℕ

-- InterceptorManager
abbrev pub Manager : Type 0 → Type 0
Manager V = Map (Interceptor V)

module _ {V : Type 0} where
  unfoldable pub add_interceptor : Interceptor V → Manager V → Manager V
  add_interceptor i m = insert i.type i m

  unfoldable pub get_interceptor : ℕ → Manager V → Option (Interceptor V)
  get_interceptor type m = lookup type m

  -- An unknown type has the empty encoding.
  unfoldable pub serialize : ℕ → V → Manager V → Outcome (List ℕ)
  serialize type v m = elim (get_interceptor type m) [ some i ↦ i.serialize v | none ↦ returns [] ]

  unfoldable pub deserialize : ℕ → List ℕ → Manager V → Outcome (Option V)
  deserialize type bytes m = elim (get_interceptor type m) [
    | some i ↦ i.deserialize bytes
    | none ↦ returns none
  ]
