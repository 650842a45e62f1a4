-- ===== src/Programs/Rounds.antt =====
-- What the user types, the network carries and the log shows, line by line. Models no code of its own.
use libuv_net.Base.{ℕ, ◌≡◌, ◌≢◌, refl, List, [], ◌∷◌, ◌++◌, map, All, Option, none, some}
use libuv_net.Base.Outcome.{Outcome, returns, ◌>>=◌}
use libuv_net.Base.Map.{lookup}
use libuv_net.Packet.{Packet, packet_of}
use libuv_net.Packet.RoundTrip.{IsWire}
use libuv_net.Packet.PacketType
use libuv_net.Framing.Chunks.{join}
use libuv_net.Interceptor.Any.{Any}
use libuv_net.Interceptor.Json.{JsonLibrary}
use libuv_net.Uv.{Uv, received, writes}
use libuv_net.Session.Defs.{Session}
use libuv_net.Session.Lifecycle.{read as session_read}
use libuv_net.Server.Defs.{Server}
use libuv_net.Server.Lifecycle.{on_session}
use libuv_net.Programs.Defs.{App, Shown, text, text_word, types, run}
use libuv_net.Programs.Server.{received_label, response}
use libuv_net.Programs.Talk.{arrives}

-- A line that is not empty, and how the network cuts the answer.
pub record Round : Type 0 where
  pub first : ℕ
  pub rest : List ℕ
  pub cut : List ℕ → List (List ℕ)

abbrev pub typed : Round → Packet
typed r = packet_of PacketType.text (r.first ∷ r.rest ++ 0 ∷ [])

-- The line and its answer fit the wire, and a cut loses nothing.
pub record IsRound (r : Round) : Type 0 where
  pub asked : IsWire (typed r)
  pub answered : IsWire (response (typed r))
  pub joined : (bytes : List ℕ) → join (r.cut bytes) ≡ bytes
  pub pieces : (bytes : List ℕ) → All (λ chunk. chunk ≢ []) (r.cut bytes)

-- What was last given to uv_write.
abbrev pub newest : List (List ℕ) → List ℕ
newest [] = []
newest (bytes ∷ earlier) = bytes

abbrev pub written_by : {V : Type 0} → Option (Session V) → List ℕ
written_by o = elim o [ some t ↦ newest (writes t.history) | none ↦ [] ]

-- The log after some answers, newest first: the label of the server, then the line, with the zero of
-- the client and the zero of the server.
abbrev pub shown_answer : Round → Shown
shown_answer r = text "收到文本消息: " (received_label ++ ((r.first ∷ r.rest ++ 0 ∷ []) ++ 0 ∷ []))

abbrev pub shown_after : List Round → List Shown → List Shown
shown_after [] old = old
shown_after (r ∷ rs) old = shown_after rs (shown_answer r ∷ old)

module _ {J M : Type 0} (uv : Uv) (lib : JsonLibrary J) (at : ℕ → Uv) (a : ℕ) where
  -- The user types a line; what the client writes comes in at the server; what the session at `a` then
  -- has written comes in at the client.
  abbrev pub round :
      Server (Any J M) × App (Any J M) → Round → Outcome (Server (Any J M) × App (Any J M))
  round (s, b) r = run uv lib b (types text_word ∷ types (r.first ∷ r.rest) ∷ []) >>= λ c.
      on_session at a (session_read (received (newest (writes c.client.history)))) s >>= λ t.
      run uv lib c (map arrives (r.cut (written_by (lookup a t.objects)))) >>= λ d. returns (t, d)

  pub round-returns :
      (s t : Server (Any J M)) (b c d : App (Any J M)) (r : Round) (image reply : List ℕ)
      → run uv lib b (types text_word ∷ types (r.first ∷ r.rest) ∷ []) ≡ returns c
      → newest (writes c.client.history) ≡ image
      → on_session at a (session_read (received image)) s ≡ returns t
      → written_by (lookup a t.objects) ≡ reply
      → run uv lib c (map arrives (r.cut reply)) ≡ returns d
      → round (s, b) r ≡ returns (t, d)
  round-returns s t b c d r image reply said out taken back shows =
      rw said (rw out (rw taken (rw back (rw shows refl))))
