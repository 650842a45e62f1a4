-- ===== src/Samples.antt =====
-- Concrete values for the tests: a target, a libuv in which every call succeeds, and a few packets.
use libuv_net.Base.{◌*◌, ◌^◌, [], ◌∷◌, false, arith}
use libuv_net.Packet.{Abi, Packet}
use libuv_net.Packet.Words.{little}
use libuv_net.Packet.Header.{IsByteAbi}
use libuv_net.Packet.RoundTrip.{IsWire}
use libuv_net.Uv.{Uv, done}

abbrev pub little_endian : Abi
little_endian = record { endian = little; pad_lo = 0; pad_hi = 0 }

-- The clock stands at 200 seconds.
abbrev pub willing : Uv
willing = record {
  abi = little_endian;
  clock = λ _. 200 * 10 ^ 9;
  write = λ _ _. done;
  read_start = λ _. done;
  is_active = λ _. false;
  tcp_init = λ _. done;
  tcp_connect = λ _. done;
  tcp_bind = λ _. done;
  listen = λ _. done;
}

-- "hi", as text
abbrev pub greeting : Packet
greeting = record { type = 0; payload = 104 ∷ 105 ∷ []; sequence = 7 }

abbrev pub beat : Packet
beat = record { type = 4; payload = []; sequence = 0 }

-- "{}", as JSON
abbrev pub braces : Packet
braces = record { type = 5; payload = 123 ∷ 125 ∷ []; sequence = 0 }

pub little_endian-IsByteAbi : IsByteAbi little_endian
little_endian-IsByteAbi = record { pad_lo = omega arith; pad_hi = omega arith }

pub greeting-IsWire : IsWire greeting
greeting-IsWire = record {
  type = omega arith;
  sequence = omega arith;
  bytes = ground arith;
  short = omega arith;
}

pub beat-IsWire : IsWire beat
beat-IsWire = record { type = omega arith; sequence = omega arith; bytes = tt; short = omega arith }
