-- ===== src/Interceptor/Laws.antt =====
-- The manager of include/libuv_net/message.hpp as a function of what was added to it.
use libuv_net.Base.{ℕ, ◌≡◌, List, some, ◌==◌, if◌then◌else◌, Bool-cases, inl, inr}
use libuv_net.Base.Map.{lookup-insert}
use libuv_net.Interceptor.Defs.{
  Interceptor, Manager, add_interceptor, get_interceptor, serialize, deserialize,
}

module _ {V : Type 0} (i : Interceptor V) (m : Manager V) (t : ℕ) where
  pub get_interceptor-add_interceptor :
      get_interceptor t (add_interceptor i m)
      ≡ (if i.type == t then some i else get_interceptor t m)
  unfolding get_interceptor add_interceptor
  get_interceptor-add_interceptor = lookup-insert i.type t i m

  -- An interceptor that is added serves its type from then on, in both directions, in place of any
  -- that was there; every other type is served as before.
  pub add_interceptor_serves :
      ((v : V)
        → serialize t v (add_interceptor i m)
          ≡ (if i.type == t then i.serialize v else serialize t v m))
      × ((bytes : List ℕ)
          → deserialize t bytes (add_interceptor i m)
            ≡ (if i.type == t then i.deserialize bytes else deserialize t bytes m))
  unfolding serialize deserialize
  add_interceptor_serves = elim (Bool-cases (i.type == t)) [
    | inl e ↦ (
      λ v. rw (get_interceptor-add_interceptor, serialize) (rw e),
      λ bytes. rw (get_interceptor-add_interceptor, deserialize) (rw e),
    )
    | inr e ↦ (
      λ v. rw (get_interceptor-add_interceptor, serialize) (rw e),
      λ bytes. rw (get_interceptor-add_interceptor, deserialize) (rw e),
    )
  ]
