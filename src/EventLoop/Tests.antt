-- ===== src/EventLoop/Tests.antt =====
-- A loop that is started, goes round once, and is stopped while its thread sleeps.
use libuv_net.Base.{ℕ, ◌≤◌, ◌≡◌, ◌≢◌, refl, true, false, [], ◌∷◌, none}
use libuv_net.Uv.{Event}
use libuv_net.Client.Defs.{Link, start as start_client}
use libuv_net.Server.Defs.{Server, start as start_server}
use libuv_net.EventLoop.Defs.{
  is_joinable, ended, sleeping, testing, EventLoop, new, start, request_stop, join, test, tests,
  polls, sleeps, starts, stops, Reach, begins, here, turns, requests, joins,
}
use libuv_net.EventLoop.Stop.{Turns, none_left, turn, stop_ends}
use libuv_net.EventLoop.Flags.{client_owner, server_owner, after, Follows, threads_follow}

abbrev link : Link ℕ
link = record {
  is_connected = false;
  is_connecting = false;
  socket_closing = false;
  timer_active = false;
  last_heartbeat = 0;
  joinable = false;
  should_stop = false;
  connect_handler = none;
  disconnect_handler = none;
  packet_handlers = [];
  default_packet_handler = none;
  interceptors = [];
  history = Event.timer_init ∷ [];
}

abbrev server : Server ℕ
server = record {
  joinable = false;
  should_stop = false;
  is_listening = false;
  socket_closing = false;
  sessions = [];
  objects = [];
  connect_handler = none;
  close_handler = none;
  packet_handlers = [];
  default_packet_handler = none;
  history = Event.tcp_init ∷ [];
}

abbrev asleep : EventLoop
asleep = record (test (start new).1) { thread = sleeping }

asleep_reached : Reach (starts ∷ []) asleep
unfolding new start test
asleep_reached = turns (turns (begins here refl) (tests refl)) (polls refl)

abbrev told : EventLoop
told = request_stop asleep

told_reached : Reach (starts ∷ []) told
unfolding new start test
told_reached = requests asleep_reached refl refl

abbrev over : EventLoop
over = test (record told { thread = testing })

told_Turns : Turns 2 told over
unfolding new start test request_stop
told_Turns = turn (sleeps refl) (turn (tests refl) none_left)

waits : told.joining ≡ true
unfolding new start test request_stop
waits = refl

stop_ends_example :
    (2 ≤ 3)
    × (over.rounds ≡ told.rounds)
    × ((j : ℕ) × (n : EventLoop) × Turns j over n × (n.thread ≡ ended))
stop_ends_example = stop_ends told_reached waits told_Turns

over_reached : Reach (stops ∷ starts ∷ []) (join over)
unfolding new start test request_stop
over_reached = joins (turns (turns told_reached (sleeps refl)) (tests refl)) refl refl

rests : (join over).joining ≡ false
unfolding join
rests = refl

threads_follow_example :
    let m = join over in
    let k = after client_owner (stops ∷ starts ∷ []) link in
    let t = after server_owner (stops ∷ starts ∷ []) server in
    Follows (stops ∷ starts ∷ []) (is_joinable m.thread) m.should_stop (start m).0
    × (m.thread ≢ ended)
    × Follows (stops ∷ starts ∷ []) k.joinable k.should_stop (start_client k).0
    × Follows (stops ∷ starts ∷ []) t.joinable t.should_stop (start_server t).0
threads_follow_example = threads_follow link server refl refl refl refl over_reached rests
