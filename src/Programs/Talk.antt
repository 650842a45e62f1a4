-- ===== src/Programs/Talk.antt =====
-- What the client of tests/client_test.cpp does with a text that comes in.
use libuv_net.Base.{ℕ, ◌≡◌, ◌≢◌, refl, sym, ◌∙◌, List, [], ◌∷◌, map, All, none, some, arith}
use libuv_net.Base.Outcome.{returns, ◌>>=◌, bind_assoc, bind_congr}
use libuv_net.Base.Map.{lookup}
use libuv_net.Packet.{Packet, packet_of}
use libuv_net.Packet.PacketType
use libuv_net.Framing.Chunks.{feed}
use libuv_net.Interceptor.{get_interceptor}
use libuv_net.Interceptor.Any.{Any}
use libuv_net.Interceptor.Json.{JsonLibrary}
use libuv_net.Uv.{Uv, Event, received}
use libuv_net.Client.Defs.{Link, Client, send as client_send, emit as client_emit, run_calls}
use libuv_net.Client.Receive.{append_to_buffer, handle_packet, dispatch, call_handler, on_read}
use libuv_net.Client.Refinement.{handle}
use libuv_net.Client.Lifecycle.{read, step}
use libuv_net.Programs.Defs.{
  text, shown, packet_handler_of, on_text, Happening, client_does, happen, run,
}
use libuv_net.Programs.Entry.{app}

abbrev pub arrives : {V : Type 0} → List ℕ → Happening V
arrives chunk = client_does (read (received chunk))

module _ {J M : Type 0} (uv : Uv) (lib : JsonLibrary J) (pretty : J → List ℕ) where
  -- What comes in while the program waits for a line goes to the client.
  pub run-arrives :
      (chunks : List (List ℕ)) (c : Client (Any J M))
      → All (λ chunk. chunk ≢ []) chunks
      → run uv lib (app c) (map arrives chunks)
        ≡ (feed (append_to_buffer uv) c chunks >>= λ d. returns (app d))
  unfolding happen step on_read
  run-arrives [] c h = refl
  run-arrives ([] ∷ chunks) c h = absurd (h.0 refl)
  run-arrives ((b ∷ bytes) ∷ chunks) c h =
      bind_assoc (append_to_buffer uv (b ∷ bytes) c) (λ d. returns (app d)) _
      ∙ bind_congr (append_to_buffer uv (b ∷ bytes) c) (λ d. run-arrives chunks d h.1)
      ∙ sym (bind_assoc (append_to_buffer uv (b ∷ bytes) c) _ _)

  pub shown-text :
      (p q : Packet) (l : Link (Any J M))
      → shown lib pretty (client_emit (Event.call_packet on_text q) (client_send uv p l)).history
        ≡ text "收到文本消息: " q.payload ∷ shown lib pretty l.history
  unfolding client_send shown
  shown-text p q l = ground arith

  pub send-tables :
      (p : Packet) (l : Link (Any J M))
      → ((client_send uv p l).packet_handlers ≡ l.packet_handlers)
        × ((client_send uv p l).interceptors ≡ l.interceptors)
  unfolding client_send
  send-tables p l = ground arith

  -- A text that comes in goes to the log.
  pub handle-text :
      (payload : List ℕ) (l : Link (Any J M))
      → lookup PacketType.text l.packet_handlers ≡ some (packet_handler_of on_text)
      → get_interceptor PacketType.text l.interceptors ≡ none
      → let q = packet_of PacketType.text payload in
        handle uv l q ≡ returns (client_emit (Event.call_packet on_text q) l)
  unfolding handle_packet dispatch call_handler run_calls
  handle-text payload l chosen plain = rw (plain, handle_packet) (rw (chosen, dispatch))
