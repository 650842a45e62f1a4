-- ===== src/Interceptor/Any.antt =====
-- What a non-empty `std::any` holds in this program: a JSON document, a message of Protobuf, or
-- something that neither interceptor knows.
pub data Any (J M : Type 0) : Type 0 where
  json : J → Any J M
  message : M → Any J M
  other : Any J M
