-- ===== src/Console/Main.antt =====
-- `main` of example/test_console.cpp. The calls do not fit the classes of the library, so the two ends
-- are parameters.
use libuv_net.Base.{ℕ, ◌≡◌, List, [], ◌∷◌, ◌++◌}
use libuv_net.Base.Outcome.{Outcome, returns, ◌>>=◌}
use libuv_net.Packet.{Packet}
use libuv_net.Packet.PacketType
use libuv_net.Interceptor.Any.{json}
use libuv_net.Interceptor.Json.{JsonLibrary, document, serialize, deserialize}
use libuv_net.Console.{Line, hex_dump, handle_server_packet, handle_client_packet}

-- "127.0.0.1"
abbrev pub localhost : List ℕ
localhost = 49 ∷ 50 ∷ 55 ∷ 46 ∷ 48 ∷ 46 ∷ 48 ∷ 46 ∷ 49 ∷ []

-- What `main` calls on its server and on its client; `S` is the state of both.
pub record Ends (S : Type 0) : Type 0 where
  pub new_server : List ℕ → ℕ → S → S
  pub set_server_handler : (Packet → Outcome (List Line)) → S → S
  pub start_server : S → S
  pub new_client : S → S
  pub set_client_handler : (Packet → Outcome (List Line)) → S → S
  pub connect : List ℕ → ℕ → S → S
  pub send : Packet → S → S
  pub disconnect : S → S
  pub stop_server : S → S

abbrev pub json_packet : List ℕ → Packet
json_packet bytes = record { type = PacketType.json; payload = bytes; sequence = 1 }

abbrev pub binary_packet : Packet
binary_packet = record { type = PacketType.binary; payload = 1 ∷ 2 ∷ 3 ∷ 4 ∷ 5 ∷ []; sequence = 2 }

module _ {S J : Type 0} (M : Type 0) (ends : Ends S) (lib : JsonLibrary J) (pretty : J → List ℕ)
    (json_data : J) where
  open ends use {
    new_server, set_server_handler, start_server, new_client, set_client_handler, connect, send,
    disconnect, stop_server,
  }

  unfoldable pub set_up_ends : S → S
  set_up_ends s = connect localhost 8080 (
      set_client_handler (handle_client_packet M lib pretty) (
        new_client (
          start_server (
            set_server_handler (handle_server_packet M lib pretty) (new_server localhost 8080 s)))))

  unfoldable pub main : S → Outcome S
  unfolding set_up_ends
  main s = serialize {M = M} lib (json json_data) >>= λ bytes.
      returns
        (stop_server (disconnect (send binary_packet (send (json_packet bytes) (set_up_ends s)))))

  -- What the handler of the server prints of the two packets, in order, if the JSON library reads
  -- back what it has written.
  main_printed :
      (bytes : List ℕ)
      → lib.dump json_data ≡ returns bytes
      → lib.parse bytes ≡ document json_data
      → (handle_server_packet M lib pretty (json_packet bytes) >>= λ xs.
          handle_server_packet M lib pretty binary_packet >>= λ ys. returns (xs ++ ys))
        ≡ returns (
            record { label = "服务器收到 JSON 数据: "; text = pretty json_data }
            ∷ record { label = "服务器收到二进制数据: "; text = hex_dump binary_packet.payload }
            ∷ [])
  unfolding handle_server_packet
  main_printed bytes written parsed = rw (parsed, deserialize)
