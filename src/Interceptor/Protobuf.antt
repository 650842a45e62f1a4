-- ===== src/Interceptor/Protobuf.antt =====
-- include/libuv_net/protobuf_interceptor.hpp. The Protobuf library is a parameter.
use libuv_net.Base.{ℕ, Bool, not, List, [], Option, none, some, if◌then◌else◌}
use libuv_net.Base.Outcome.{Outcome, returns}
use libuv_net.Packet.PacketType
use libuv_net.Interceptor.Defs.{Interceptor}
use libuv_net.Interceptor.Any.{Any, json, message, other}

-- `known` says whether the generated pool has a message type of the name
-- "google.protobuf.Message"; `parse` is `ParseFromString` on a new message of that type, and also
-- `none` where it throws.
pub record ProtobufLibrary (M : Type 0) : Type 0 where
  pub known : Bool
  pub serialize_to_string : M → Option (List ℕ)
  pub parse : List ℕ → Option M

module _ {J M : Type 0} (lib : ProtobufLibrary M) where
  -- The pointer in the `any` is not null.
  unfoldable pub serialize : Any J M → Outcome (List ℕ)
  serialize (message m) = elim (lib.serialize_to_string m) [
    | some bytes ↦ returns bytes
    | none ↦ returns []
  ]
  serialize (json j) = returns []
  serialize other = returns []

  unfoldable pub parsed : Option M → Option (Any J M)
  parsed (some m) = some (message m)
  parsed none = none

  unfoldable pub deserialize : List ℕ → Outcome (Option (Any J M))
  unfolding parsed
  deserialize bytes = if not lib.known then returns none else returns (parsed (lib.parse bytes))

  unfoldable pub protobuf_interceptor : Interceptor (Any J M)
  unfolding serialize deserialize
  protobuf_interceptor = record {
    serialize = serialize;
    deserialize = deserialize;
    type = PacketType.protobuf;
  }
