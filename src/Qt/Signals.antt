-- ===== src/Qt/Signals.antt =====
-- The wrappers of qt_wrapper seen from their signals: src/qt_client.cpp and src/qt_server.cpp, with the
-- window of example/mainwindow.cpp behind them.
use Prim.Native.String.{String, ◌++◌ as ◌<>◌}
use libuv_net.Base.{
  ℕ, suc, ◌+◌, ◌≡◌, refl, sym, ap, ◌∙◌, subst, Bool, true, false, List, [], ◌∷◌, ◌++◌, map, foldl,
  append_assoc, append-nil, Option, none, some, arith,
}
use libuv_net.Qt.Client
use libuv_net.Qt.Client.{ClientApi, QtClient, Signal, handle_connect, handle_message, handle_close}
use libuv_net.Qt.Server
use libuv_net.Qt.Server.{ServerApi, QtServer, report}
use libuv_net.Qt.Window.{Toolkit, ClientEnd, ServerEnd, client_signals, new, run}
use libuv_net.Qt.Buttons.{Shows, is_up, is_running, buttons_show}

-- What the wrapped client calls.
pub data Callback : Type 0 where
  on_connect : (success : Bool) → Callback
  on_message : (payload : List ℕ) → Callback
  on_close : Callback

module _ {C : Type 0} where
  unfoldable pub called : QtClient C → Callback → QtClient C
  unfolding handle_connect handle_message handle_close
  called q (on_connect success) = handle_connect success q
  called q (on_message payload) = handle_message payload q
  called q on_close = handle_close q

-- Whether the last news is a connection that stands; one that fails is no news.
abbrev pub stands : Bool → List Callback → Bool
stands b [] = b
stands b (on_connect true ∷ cs) = stands true cs
stands b (on_close ∷ cs) = stands false cs
stands b (_ ∷ cs) = stands b cs

abbrev signal_of : Callback → Signal
signal_of (on_connect true) = Client.connected
signal_of (on_connect false) = Client.error "连接失败"
signal_of (on_message payload) = Client.message_received payload
signal_of on_close = Client.disconnected

signals-called :
    {C : Type 0} (q : QtClient C) (cs : List Callback)
    → (foldl called q cs).signals ≡ q.signals ++ map signal_of cs
unfolding called
signals-called q [] = sym (append-nil q.signals)
signals-called q (on_connect true ∷ cs) =
    signals-called _ cs ∙ append_assoc q.signals (Client.connected ∷ []) (map signal_of cs)
signals-called q (on_connect false ∷ cs) =
    signals-called _ cs ∙ append_assoc q.signals (Client.error "连接失败" ∷ []) (map signal_of cs)
signals-called q (on_message payload ∷ cs) =
    signals-called _ cs
    ∙ append_assoc q.signals (Client.message_received payload ∷ []) (map signal_of cs)
signals-called q (on_close ∷ cs) =
    signals-called _ cs ∙ append_assoc q.signals (Client.disconnected ∷ []) (map signal_of cs)

is_up-signal_of :
    (b : Bool) (cs : List Callback) → is_up b (map client_signals (map signal_of cs)) ≡ stands b cs
is_up-signal_of b [] = refl
is_up-signal_of b (on_connect true ∷ cs) = is_up-signal_of true cs
is_up-signal_of b (on_connect false ∷ cs) = is_up-signal_of b cs
is_up-signal_of b (on_message payload ∷ cs) = is_up-signal_of b cs
is_up-signal_of b (on_close ∷ cs) = is_up-signal_of false cs

is_running-signal_of :
    (b : Bool) (signals : List Signal) → is_running b (map client_signals signals) ≡ b
is_running-signal_of b [] = refl
is_running-signal_of b (_ ∷ signals) = is_running-signal_of b signals

-- Behind a new wrapper, the window that has taken all the wrapper's signals shows the state of the
-- wrapped client: it offers to disconnect and to send exactly if the last of the callbacks on a
-- connection that stands and on one that is closed was the former. A failed connection changes no
-- button.
pub window_follows_client :
    {C D S : Type 0} (qt : Toolkit) (ce : ClientEnd D) (se : ServerEnd S) (c : C) (d : D) (s : S)
    (cs : List Callback)
    → Shows (stands false cs) false (
        run qt ce se
          (new qt ce se d s)
          (map client_signals (foldl called (Client.new c) cs).signals))
unfolding Client.new
window_follows_client qt ce se c d s cs =
    let signals = (foldl called (Client.new c) cs).signals in
    let e : signals ≡ map signal_of cs = signals-called (Client.new c) cs in
    let w = run qt ce se (new qt ce se d s) (map client_signals signals) in
    subst (λ b. Shows b false w)
      (ap (λ l. is_up false (map client_signals l)) e ∙ is_up-signal_of false cs)
      (subst (λ b. Shows (is_up false (map client_signals signals)) b w)
        (is_running-signal_of false signals)
        (buttons_show qt ce se d s (map client_signals signals)))

-- The operations of the wrapped server.
pub data Operation : Type 0 where
  start : String → ℕ → Operation
  stop : Operation
  broadcast : List ℕ → Operation
  send_to : ℕ → List ℕ → Operation

module _ {S : Type 0} (api : ServerApi S) where
  abbrev pub performed : Operation → QtServer S → QtServer S
  performed (start host port) q = (Server.start api host port q).1
  performed stop q = Server.stop api q
  performed (broadcast bytes) q = Server.broadcast api bytes q
  performed (send_to session_id bytes) q = Server.send_to api session_id bytes q

  abbrev pub outcome : Operation → S → Option String × S
  outcome (start host port) s = api.start host port s
  outcome stop s = api.stop s
  outcome (broadcast bytes) s = api.broadcast bytes s
  outcome (send_to session_id bytes) s = api.send_to session_id bytes s

  -- How often the operations throw, and the server that they leave.
  abbrev pub throws : List Operation → S → ℕ
  throws [] s = 0
  throws (x ∷ xs) s =
      let later = throws xs (outcome x s).1 in
      elim (outcome x s).0 [ none ↦ later | some what ↦ suc later ]

  abbrev pub left : List Operation → S → S
  left [] s = s
  left (x ∷ xs) s = left xs (outcome x s).1

abbrev pub errors : List Server.Signal → ℕ
errors [] = 0
errors (Server.error text ∷ signals) = suc (errors signals)
errors (_ ∷ signals) = errors signals

errors-append :
    (xs : List Server.Signal) (text : String)
    → errors (xs ++ Server.error text ∷ []) ≡ suc (errors xs)
errors-append [] text = refl
errors-append (Server.error other ∷ xs) text = ap suc (errors-append xs text)
errors-append (Server.session_connected k ∷ xs) text = errors-append xs text
errors-append (Server.session_disconnected k ∷ xs) text = errors-append xs text
errors-append (Server.message_received k bytes ∷ xs) text = errors-append xs text

-- Errors now and later.
sums :
    (o : Option String) (all now old later : ℕ)
    → all ≡ now + later
    → now ≡ old + (elim o [ none ↦ 0 | some what ↦ 1 ])
    → all ≡ old + (elim o [ none ↦ later | some what ↦ suc later ])
sums none all now old later h k = omega arith
sums (some what) all now old later h k = omega arith

module _ {S : Type 0} (api : ServerApi S) where
  -- What one operation leaves, by what the wrapped one gave.
  abbrev Contained : Option String × S → QtServer S → QtServer S → Type 0
  Contained r q p =
      (p.server ≡ r.1)
      × (errors p.signals ≡ errors q.signals + (elim r.0 [ none ↦ 0 | some what ↦ 1 ]))

  report-Contained :
      (label : String) (r : Option String × S) (q : QtServer S) → Contained r q (report label r q)
  report-Contained label (none, s) q = (refl, omega arith)
  report-Contained label (some what, s) q =
      (refl, omega (arith, errors-append q.signals (label <> what)))

  performed-Contained :
      (x : Operation) (q : QtServer S) → Contained (outcome api x q.server) q (performed api x q)
  unfolding Server.start Server.stop Server.broadcast Server.send_to
  performed-Contained (start host port) q = report-Contained _ (api.start host port q.server) q
  performed-Contained stop q = report-Contained _ (api.stop q.server) q
  performed-Contained (broadcast bytes) q = report-Contained _ (api.broadcast bytes q.server) q
  performed-Contained (send_to k bytes) q = report-Contained _ (api.send_to k bytes q.server) q

  -- No exception of the wrapped server gets out: over any operations, the wrapped server goes through
  -- the states that the operations alone give, and the wrapper signals one error for each that throws.
  pub errors-performed :
      (xs : List Operation) (q : QtServer S)
      → let p = foldl (λ r x. performed api x r) q xs in
        (p.server ≡ left api xs q.server)
        × (errors p.signals ≡ errors q.signals + throws api xs q.server)
  errors-performed [] q = (refl, omega arith)
  errors-performed (x ∷ xs) q =
      let h = performed-Contained x q in
      let later = errors-performed xs (performed api x q) in
      (
        later.0 ∙ ap (left api xs) h.0,
        sums (outcome api x q.server).0 _ _ _ _
            (later.1 ∙ ap (λ s. errors (performed api x q).signals + throws api xs s) h.0) h.1,
      )
