-- ===== src/Packet/PacketType.antt =====
-- `enum class PacketType : uint8_t` of include/libuv_net/message.hpp. The underlying type is fixed,
-- so a byte that names no enumerator is a value of the enum too, and `deserialize` lets it through:
-- a packet type is its byte.
use libuv_net.Base.{ℕ}

abbrev pub text : ℕ
text = 0

abbrev pub binary : ℕ
binary = 1

abbrev pub ping : ℕ
ping = 2

abbrev pub pong : ℕ
pong = 3

abbrev pub heartbeat : ℕ
heartbeat = 4

abbrev pub json : ℕ
json = 5

abbrev pub protobuf : ℕ
protobuf = 6
