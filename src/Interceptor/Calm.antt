-- ===== src/Interceptor/Calm.antt =====
-- Interceptors that do not throw, of include/libuv_net/message.hpp.
use libuv_net.Base.{ℕ, ◌≡◌, List, Option, some}
use libuv_net.Base.Outcome.{returns}
use libuv_net.Interceptor.Defs.{Interceptor, Manager, get_interceptor}

-- The interceptors do not throw on what they are given to parse.
abbrev pub IsCalm : {V : Type 0} → Manager V → Type 0
IsCalm {V} m =
    (type : ℕ) (bytes : List ℕ) (i : Interceptor V)
    → get_interceptor type m ≡ some i
    → (v : Option V) × (i.deserialize bytes ≡ returns v)

-- Neither do they throw on the values that they are given to encode.
abbrev pub IsCalmOut : {V : Type 0} → Manager V → Type 0
IsCalmOut {V} m =
    (type : ℕ) (v : V) (i : Interceptor V)
    → get_interceptor type m ≡ some i
    → (bytes : List ℕ) × (i.serialize v ≡ returns bytes)
