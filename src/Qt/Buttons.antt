-- ===== src/Qt/Buttons.antt =====
-- What the buttons of example/mainwindow.cpp show.
use libuv_net.Base.{◌≡◌, refl, subst, Bool, true, false, not, List, [], ◌∷◌, arith}
use libuv_net.Qt.Client
use libuv_net.Qt.Window.{
  Toolkit, ClientEnd, ServerEnd, Window, started, stopped, Input, client_signals, server_signals,
  new, step, run,
}

-- Whether the last that the client signalled of its connection is that it stands.
abbrev pub is_up : Bool → List Input → Bool
is_up b [] = b
is_up b (client_signals Client.connected ∷ is) = is_up true is
is_up b (client_signals Client.disconnected ∷ is) = is_up false is
is_up b (_ ∷ is) = is_up b is

abbrev pub is_running : Bool → List Input → Bool
is_running b [] = b
is_running b (server_signals started ∷ is) = is_running true is
is_running b (server_signals stopped ∷ is) = is_running false is
is_running b (_ ∷ is) = is_running b is

is_up-cons :
    (b : Bool) (i : Input) (is : List Input) → is_up (is_up b (i ∷ [])) is ≡ is_up b (i ∷ is)
is_up-cons b (client_signals Client.connected) is = refl
is_up-cons b (client_signals Client.disconnected) is = refl
is_up-cons b _ is = refl

is_running-cons :
    (b : Bool) (i : Input) (is : List Input)
    → is_running (is_running b (i ∷ [])) is ≡ is_running b (i ∷ is)
is_running-cons b (server_signals started) is = refl
is_running-cons b (server_signals stopped) is = refl
is_running-cons b _ is = refl

pub record Shows {C S : Type 0} (up running : Bool) (w : Window C S) : Type 0 where
  pub connect : w.connect_enabled ≡ not up
  pub disconnect : w.disconnect_enabled ≡ up
  pub send : w.send_enabled ≡ up
  pub start : w.start_enabled ≡ not running
  pub stop : w.stop_enabled ≡ running

module _ {C S : Type 0} (qt : Toolkit) (ce : ClientEnd C) (se : ServerEnd S) where
  step-Shows :
      (up running : Bool) (w : Window C S) (i : Input)
      → Shows up running w
      → Shows (is_up up (i ∷ [])) (is_running running (i ∷ [])) (step qt ce se w i)
  unfolding step
  step-Shows up running w (client_signals Client.connected) h = ground arith
  step-Shows up running w (client_signals Client.disconnected) h = ground arith
  step-Shows up running w (client_signals (Client.error text)) h = ground arith
  step-Shows up running w (client_signals (Client.message_received bytes)) h = ground arith
  step-Shows up running w (server_signals started) h = ground arith
  step-Shows up running w (server_signals stopped) h = ground arith
  step-Shows up running w (server_signals _) h = ground arith
  step-Shows up running w _ h = ground arith

  run-Shows :
      (up running : Bool) (w : Window C S) (is : List Input)
      → Shows up running w
      → Shows (is_up up is) (is_running running is) (run qt ce se w is)
  run-Shows up running w [] h = h
  run-Shows up running w (i ∷ is) h =
      let later =
        run-Shows (is_up up (i ∷ [])) (is_running running (i ∷ [])) (step qt ce se w i) is
          (step-Shows up running w i h) in
      subst (λ b. Shows b (is_running running (i ∷ is)) (run qt ce se w (i ∷ is)))
        (is_up-cons up i is)
        (subst (λ b. Shows (is_up (is_up up (i ∷ [])) is) b (run qt ce se w (i ∷ is)))
          (is_running-cons running i is) later)

  -- Whatever is typed, clicked and signalled, the window offers to connect exactly if the client has
  -- not signalled a connection since its last disconnection, and to disconnect and to send exactly if
  -- it has; and likewise to start and to stop the server.
  pub buttons_show :
      (c : C) (s : S) (is : List Input)
      → Shows (is_up false is) (is_running false is) (run qt ce se (new qt ce se c s) is)
  unfolding new
  buttons_show c s is =
      run-Shows false false (new qt ce se c s) is
        (record { connect = refl; disconnect = refl; send = refl; start = refl; stop = refl })
