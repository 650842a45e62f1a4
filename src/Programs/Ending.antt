-- ===== src/Programs/Ending.antt =====
-- The beginning and the end of `main` in tests/client_test.cpp.
use libuv_net.Base.{
  ℕ, zero, suc, ◌≡◌, refl, Bool, true, false, List, [], ◌∷◌, ◌++◌, if◌then◌else◌, Bool-cases, inl,
  inr, arith,
}
use libuv_net.Base.Outcome.{
  Outcome, returns, throws, stuck, ◌>>=◌, Holds, Holds-bind, Holds-of_returns,
}
use libuv_net.Interceptor.Any.{Any, json}
use libuv_net.Interceptor.Json.{JsonLibrary, Parsed, document, parse_error, out_of_range}
use libuv_net.Packet.{packet_of}
use libuv_net.Packet.PacketType
use libuv_net.Uv.{Uv}
use libuv_net.Server.Id.{same_text}
use libuv_net.Client.Defs.{
  Link, Client, on_link, start, stop, connect, disconnect, destroy, send, send_data,
}
use libuv_net.Client.Lifecycle.{Input, step}
use libuv_net.Programs.Hex.{parse_binary}
use libuv_net.Programs.Defs.{
  App, Prompt, asks_kind, asks_text, asks_json, asks_binary, ended, try_connect, start_up, finish,
  next_round, send_line, choose, enter_json, enter, callback, Happening, types, client_does, happen,
  run, should_exit, localhost, quit_word, text_word, json_word, binary_word,
}
use libuv_net.Programs.Entry.{app}

-- Neither connected nor connecting, and the thread of the loop has been joined.
pub record IsDown {V : Type 0} (l : Link V) : Type 0 where
  pub unconnected : l.is_connected ≡ false
  pub idle : l.is_connecting ≡ false
  pub joined : l.joinable ≡ false

destroy-IsDown : {V : Type 0} (l : Link V) → IsDown (destroy l)
unfolding destroy
destroy-IsDown l = ground arith

-- Once `main` has ended.
abbrev DownAtEnd : {V : Type 0} → Prompt → Link V → Type 0
DownAtEnd ended l = IsDown l
DownAtEnd _ l = Unit {0}

abbrev Sound : {V : Type 0} → App V → Type 0
Sound a = DownAtEnd a.prompt a.client.link

finish-Sound : {V : Type 0} (a : App V) → Sound (finish a)
unfolding finish
finish-Sound a = destroy-IsDown (disconnect a.client.link)

Sound-if : {V : Type 0} (b : Bool) (x y : App V) → Sound x → Sound y → Sound (if b then x else y)
Sound-if true x y h k = h
Sound-if false x y h k = k

next_round-Sound : {V : Type 0} (a : App V) → Sound (next_round a)
unfolding next_round
next_round-Sound a =
    Sound-if (should_exit a.client.history) (finish a) (record a { prompt = asks_kind })
      (finish-Sound a) tt

choose-Sound : {V : Type 0} (line : List ℕ) (a : App V) → Sound (choose line a)
unfolding choose
choose-Sound line a = Sound-if (same_text line quit_word) (finish a) _ (finish-Sound a) (
    Sound-if (same_text line text_word) (record a { prompt = asks_text }) _ tt
      (Sound-if (same_text line json_word) (record a { prompt = asks_json }) _ tt
        (Sound-if (same_text line binary_word) (record a { prompt = asks_binary }) _ tt
          (next_round-Sound a))))

Holds-anyway : {A : Type 0} (P : A → Type 0) (m : Outcome A) → ((x : A) → P x) → Holds P m
Holds-anyway P (returns x) h = h x
Holds-anyway P throws h = tt
Holds-anyway P stuck h = tt

bind-Holds :
    {A B : Type 0} (P : B → Type 0) (m : Outcome A) (f : A → B)
    → ((x : A) → P (f x))
    → Holds P (m >>= λ x. returns (f x))
bind-Holds P m f h =
    Holds-bind (λ x. Unit {0}) P m _ (Holds-anyway (λ x. Unit {0}) m (λ x. tt)) (λ x k. h x)

module _ {J M : Type 0} (uv : Uv) (lib : JsonLibrary J) where
  enter_json-Sound : (line : List ℕ) (a : App (Any J M)) → Holds Sound (enter_json uv lib line a)
  unfolding enter_json
  enter_json-Sound line a = go (lib.parse line)
    where
      go :
          (parsed : Parsed J)
          → Holds Sound (elim parsed [
            | document j ↦ send_data uv PacketType.json (json j) a.client.link >>= λ l.
                returns (next_round (record a { client = record a.client { link = l } }))
            | parse_error ↦ returns (next_round a)
            | out_of_range ↦ throws
          ])
      go (document j) =
          bind-Holds Sound (send_data uv PacketType.json (json j) a.client.link) _
            (λ l. next_round-Sound (record a { client = record a.client { link = l } }))
      go parse_error = next_round-Sound a
      go out_of_range = tt

  send_line-Sound :
      (type : ℕ) (bytes : List ℕ) (a : App (Any J M)) → Sound (send_line uv type bytes a)
  unfolding send_line
  send_line-Sound type bytes a =
      next_round-Sound (record a { client = on_link (send uv (packet_of type bytes)) a.client })

  enter-Sound :
      (p : Prompt) (line : List ℕ) (a : App (Any J M))
      → a.prompt ≡ p
      → Sound a
      → Holds Sound (enter uv lib p line a)
  unfolding enter
  enter-Sound asks_kind line a e h = choose-Sound line a
  enter-Sound asks_text [] a e h = next_round-Sound a
  enter-Sound asks_text (c ∷ cs) a e h = send_line-Sound PacketType.text (c ∷ cs ++ 0 ∷ []) a
  enter-Sound asks_json [] a e h = next_round-Sound a
  enter-Sound asks_json (c ∷ cs) a e h = enter_json-Sound (c ∷ cs) a
  enter-Sound asks_binary [] a e h = next_round-Sound a
  enter-Sound asks_binary (c ∷ cs) a e h =
      bind-Holds Sound (parse_binary (c ∷ cs)) _
        (λ bytes. send_line-Sound PacketType.binary bytes a)
  enter-Sound ended line a e h = h

  live-Sound :
      (p : Prompt) (i : Input (Any J M)) (a : App (Any J M))
      → a.prompt ≡ p
      → ((l : Link (Any J M)) → DownAtEnd p l)
      → Holds Sound (step uv a.client i >>= λ c. returns (record a { client = c }))
  live-Sound p i a e any = bind-Holds Sound (step uv a.client i) _ (λ c. rw e (any c.link))

  callback-Sound :
      (p : Prompt) (i : Input (Any J M)) (a : App (Any J M))
      → a.prompt ≡ p
      → Sound a
      → Holds Sound (callback uv lib p i a)
  unfolding callback
  callback-Sound asks_kind i a e h = live-Sound asks_kind i a e (λ l. tt)
  callback-Sound asks_text i a e h = live-Sound asks_text i a e (λ l. tt)
  callback-Sound asks_json i a e h = live-Sound asks_json i a e (λ l. tt)
  callback-Sound asks_binary i a e h = live-Sound asks_binary i a e (λ l. tt)
  callback-Sound ended i a e h = h

  happen-Sound :
      (a : App (Any J M)) (x : Happening (Any J M)) → Sound a → Holds Sound (happen uv lib a x)
  unfolding happen
  happen-Sound a (types line) h = enter-Sound a.prompt line a refl h
  happen-Sound a (client_does i) h = callback-Sound a.prompt i a refl h

  run-Sound :
      (a : App (Any J M)) (xs : List (Happening (Any J M)))
      → Sound a
      → Holds Sound (run uv lib a xs)
  run-Sound a [] h = h
  run-Sound a (x ∷ xs) h =
      Holds-bind Sound Sound (happen uv lib a x) _ (happen-Sound a x h) (λ b k. run-Sound b xs k)

  -- However the lines that the user types and the callbacks of the client follow each other: when
  -- `main` has ended, the client is neither connected nor connecting, and the thread of its loop has
  -- been joined.
  pub ended-IsDown :
      (c : Client (Any J M)) (xs : List (Happening (Any J M))) (b : App (Any J M))
      → run uv lib (app c) xs ≡ returns b
      → b.prompt ≡ ended
      → IsDown b.client.link
  ended-IsDown c xs b ran over =
      rw over at (Holds-of_returns Sound (run uv lib (app c) xs) (run-Sound (app c) xs tt) ran)

module _ {V : Type 0} (uv : Uv) (during : ℕ → Link V → Link V) where
  connect-begun :
      (host : List ℕ) (port : ℕ) (l : Link V)
      → (connect uv host port l).0 ≡ true
      → (connect uv host port l).1.is_connecting ≡ true
  unfolding connect
  connect-begun host port l h = ground arith

  -- An attempt that succeeds ends the loop, and the client is connecting then.
  try_connect-begun :
      (n : ℕ) (l : Link V)
      → (try_connect uv during n l).0 ≡ true
      → (try_connect uv during n l).1.is_connecting ≡ true
  unfolding try_connect
  try_connect-begun zero l h = cc h
  try_connect-begun (suc n) l h = elim (Bool-cases (connect uv localhost 8080 l).0) [
    | inl e ↦ rw e (connect-begun localhost 8080 l e)
    | inr e ↦ rw e (try_connect-begun n _ (rw e at h))
  ]

  start-began : (l : Link V) → l.joinable ≡ false → (start l).0 ≡ true
  unfolding start
  start-began l h = ground arith

  -- What `main` goes on with, and what it leaves where it gives up.
  pub start_up_lem :
      (l : Link V)
      → l.joinable ≡ false
      → let (goes_on, m) = start_up uv during l in
        (m.is_connecting ≡ goes_on)
        × ((if goes_on then false else m.is_connected) ≡ false)
        × ((if goes_on then false else m.joinable) ≡ false)
  unfolding start_up
  start_up_lem l h =
      rw (start-began l h) (elim (Bool-cases (try_connect uv during 3 (start l).1).0) [
        | inl e ↦ rw e (try_connect-begun 3 (start l).1 e, refl, refl)
        | inr e ↦
            let d = destroy-IsDown (stop (try_connect uv during 3 (start l).1).1) in
            rw e (d.idle, d.unconnected, d.joined)
      ])
