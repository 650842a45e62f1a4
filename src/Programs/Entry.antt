-- ===== src/Programs/Entry.antt =====
-- What the client of tests/client_test.cpp sends when its user types a line.
use libuv_net.Base.{ℕ, ◌≡◌, false, List, [], ◌∷◌, ◌++◌, All, some, arith}
use libuv_net.Base.Outcome.{returns}
use libuv_net.Packet.{packet_of, IsByte}
use libuv_net.Packet.PacketType
use libuv_net.Interceptor.Any.{Any, json}
use libuv_net.Interceptor.{get_interceptor}
use libuv_net.Interceptor.Json.{JsonLibrary, document, json_interceptor}
use libuv_net.Uv.{Uv}
use libuv_net.Client.Defs.{Link, Client, send, send_data}
use libuv_net.Client.Refinement.{client}
use libuv_net.Programs.Hex.{two_digits, parse_binary, parse_binary-two_digits}
use libuv_net.Programs.Defs.{
  App, asks_kind, should_exit, text_word, json_word, binary_word, types, happen, run, enter_json,
}

-- A program that waits for a kind, as it does whenever a line has been dealt with.
abbrev pub app : {V : Type 0} → Client V → App V
app c = record { client = c; prompt = asks_kind }

module _ {J M : Type 0} (uv : Uv) (lib : JsonLibrary J) where
  pub run-text :
      (c : ℕ) (line : List ℕ) (l : Link (Any J M))
      → should_exit l.history ≡ false
      → run uv lib (app (client l [])) (types text_word ∷ types (c ∷ line) ∷ [])
        ≡ returns (app (client (send uv (packet_of PacketType.text (c ∷ line ++ 0 ∷ [])) l) []))
  unfolding happen send
  run-text c line l h = ground arith

  enter-binary :
      (c : ℕ) (line bytes : List ℕ) (l : Link (Any J M))
      → should_exit l.history ≡ false
      → parse_binary (c ∷ line) ≡ returns bytes
      → run uv lib (app (client l [])) (types binary_word ∷ types (c ∷ line) ∷ [])
        ≡ returns (app (client (send uv (packet_of PacketType.binary bytes) l) []))
  unfolding happen send
  enter-binary c line bytes l h parsed = rw parsed (ground (arith, h))

  send_data-document :
      (j : J) (bytes : List ℕ) (l : Link (Any J M))
      → get_interceptor PacketType.json l.interceptors ≡ some (json_interceptor lib)
      → lib.dump j ≡ returns bytes
      → send_data uv PacketType.json (json j) l
        ≡ returns (send uv (packet_of PacketType.json bytes) l)
  unfolding json_interceptor send_data send
  send_data-document j bytes l found dumped = rw (found, send_data) (rw dumped)

  enter-json :
      (c : ℕ) (line bytes : List ℕ) (j : J) (l : Link (Any J M))
      → should_exit l.history ≡ false
      → lib.parse (c ∷ line) ≡ document j
      → get_interceptor PacketType.json l.interceptors ≡ some (json_interceptor lib)
      → lib.dump j ≡ returns bytes
      → run uv lib (app (client l [])) (types json_word ∷ types (c ∷ line) ∷ [])
        ≡ returns (app (client (send uv (packet_of PacketType.json bytes) l) []))
  unfolding happen send
  enter-json c line bytes j l h parsed found dumped =
      rw (parsed, enter_json) (rw (send_data-document j bytes l found dumped) (ground (arith, h)))

  -- In a program that waits for a kind and has not been told to exit: a text that is typed is sent
  -- with a zero behind it, bytes that are typed as two digits each are sent as they are, and a
  -- document that is typed is sent as the library writes it; and the program waits for a kind again.
  pub typed_lem :
      (c : ℕ) (line written : List ℕ) (x : ℕ) (bytes : List ℕ) (j : J) (l : Link (Any J M))
      → should_exit l.history ≡ false
      → All IsByte (x ∷ bytes)
      → lib.parse (c ∷ line) ≡ document j
      → lib.dump j ≡ returns written
      → get_interceptor PacketType.json l.interceptors ≡ some (json_interceptor lib)
      → (run uv lib (app (client l [])) (types text_word ∷ types (c ∷ line) ∷ [])
          ≡ returns (app (client (send uv (packet_of PacketType.text (c ∷ line ++ 0 ∷ [])) l) [])))
        × (run uv lib (app (client l [])) (types binary_word ∷ types (two_digits (x ∷ bytes)) ∷ [])
            ≡ returns (app (client (send uv (packet_of PacketType.binary (x ∷ bytes)) l) [])))
        × (run uv lib (app (client l [])) (types json_word ∷ types (c ∷ line) ∷ [])
            ≡ returns (app (client (send uv (packet_of PacketType.json written) l) [])))
  typed_lem c line written x bytes j l h all parsed dumped found = (
    run-text c line l h,
    enter-binary _ _ (x ∷ bytes) l h (parse_binary-two_digits (x ∷ bytes) all),
    enter-json c line written j l h parsed found dumped,
  )
