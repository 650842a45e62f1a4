-- ===== src/Interceptor/Json.antt =====
-- include/libuv_net/json_interceptor.hpp. The JSON library is a parameter.
use libuv_net.Base.{ℕ, List, [], Option, none, some}
use libuv_net.Base.Outcome.{Outcome, returns, throws}
use libuv_net.Packet.PacketType
use libuv_net.Interceptor.Defs.{Interceptor}
use libuv_net.Interceptor.Any.{Any, json, message, other}

-- What `nlohmann::json::parse` does: it returns, or throws an exception of one of two classes.
pub data Parsed (J : Type 0) : Type 0 where
  document : J → Parsed J
  parse_error out_of_range : Parsed J

-- `dump` throws on a string that is not UTF-8.
pub record JsonLibrary (J : Type 0) : Type 0 where
  pub dump : J → Outcome (List ℕ)
  pub parse : List ℕ → Parsed J

module _ {J M : Type 0} (lib : JsonLibrary J) where
  -- `bad_any_cast` gives the empty vector.
  unfoldable pub serialize : Any J M → Outcome (List ℕ)
  serialize (json j) = lib.dump j
  serialize (message m) = returns []
  serialize other = returns []

  -- Only `parse_error` is caught.
  unfoldable pub deserialize : List ℕ → Outcome (Option (Any J M))
  deserialize bytes = elim (lib.parse bytes) [
    | document j ↦ returns (some (json j))
    | parse_error ↦ returns none
    | out_of_range ↦ throws
  ]

  unfoldable pub json_interceptor : Interceptor (Any J M)
  unfolding serialize deserialize
  json_interceptor = record {
    serialize = serialize;
    deserialize = deserialize;
    type = PacketType.json;
  }
