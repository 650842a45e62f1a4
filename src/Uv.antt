-- ===== src/Uv.antt =====
-- What the program takes from libuv, the clock and the allocator. Every call is recorded as an
-- event, newest first; what a call returns is a function of the events before it, which `Uv` holds.
use libuv_net.Base.{ℕ, suc, ◌≡◌, refl, Bool, true, false, List, [], ◌∷◌}
use libuv_net.Packet.{Abi, Packet}

-- A return code: 0, or the negative error `-code`.
pub data Status : Type 0 where
  done : Status
  error : (code : ℕ) → Status

-- UV_EBUSY
abbrev pub ebusy : Status
ebusy = error 16

-- What `on_read` is handed: `nread < 0`, or the `nread` bytes of the buffer.
pub data Incoming : Type 0 where
  failed : (code : ℕ) → Incoming
  received : (bytes : List ℕ) → Incoming

-- The far end of an accepted connection, in text and host byte order, by address family.
pub data Peer : Type 0 where
  inet inet6 : (address : List ℕ) → (port : ℕ) → Peer

pub data Event : Type 0 where
  -- uv_tcp_init, uv_accept, uv_listen, uv_tcp_connect, uv_tcp_bind
  tcp_init accept listen : Event
  connect_request bind : (host : List ℕ) → (port : ℕ) → Event
  -- uv_read_start, uv_read_stop, uv_write, uv_close with a callback and without one
  read_start read_stop : Event
  write : (bytes : List ℕ) → Event
  close close_unheard : Event
  -- uv_timer_init, uv_timer_start, uv_timer_stop, steady_clock::now
  timer_init timer_start timer_stop clock_read : Event
  -- `new` and `delete` of a request, of a read buffer
  new_request delete_request : Event
  new_buffer : (size : ℕ) → Event
  delete_buffer : Event
  -- a call of user code, which is named by a number
  call_packet : (handler : ℕ) → Packet → Event
  call_read : (handler : ℕ) → List ℕ → Event
  call_alloc : (handler : ℕ) → (size : ℕ) → Event
  call_connect call_close : (handler : ℕ) → Event
  -- the same, of the handlers that a server holds for its sessions
  call_server_packet : (handler : ℕ) → Packet → Event
  call_server_connect call_server_close : (handler : ℕ) → Event

pub record Uv : Type 0 where
  pub abi : Abi
  pub clock : List Event → ℕ  -- nanoseconds
  pub write : List Event → List ℕ → Status
  pub read_start : List Event → Status
  pub is_active : List Event → Bool
  pub tcp_init : List Event → Status
  pub tcp_connect : List Event → Status
  pub tcp_bind : List Event → Status
  pub listen : List Event → Status

-- The calls of uv_close, with a callback or without.
abbrev pub closes : List Event → ℕ
closes [] = 0
closes (close ∷ es) = suc (closes es)
closes (close_unheard ∷ es) = suc (closes es)
closes (_ ∷ es) = closes es

-- What was given to uv_write, newest first.
abbrev pub writes : List Event → List (List ℕ)
writes [] = []
writes (write bytes ∷ es) = bytes ∷ writes es
writes (_ ∷ es) = writes es

-- The requests made by `new`, and those given back by `delete`.
abbrev pub requests_made : List Event → ℕ
requests_made [] = 0
requests_made (new_request ∷ es) = suc (requests_made es)
requests_made (_ ∷ es) = requests_made es

abbrev pub requests_deleted : List Event → ℕ
requests_deleted [] = 0
requests_deleted (delete_request ∷ es) = suc (requests_deleted es)
requests_deleted (_ ∷ es) = requests_deleted es

-- The same for the buffers that reads go into.
abbrev pub buffers_made : List Event → ℕ
buffers_made [] = 0
buffers_made (new_buffer size ∷ es) = suc (buffers_made es)
buffers_made (_ ∷ es) = buffers_made es

abbrev pub buffers_deleted : List Event → ℕ
buffers_deleted [] = 0
buffers_deleted (delete_buffer ∷ es) = suc (buffers_deleted es)
buffers_deleted (_ ∷ es) = buffers_deleted es

-- The requests that libuv has taken on, each of which ends in one callback.
abbrev pub requests_accepted : Uv → List Event → ℕ
requests_accepted uv [] = 0
requests_accepted uv (write bytes ∷ es) = elim (uv.write es bytes) [
  | done ↦ suc (requests_accepted uv es)
  | error code ↦ requests_accepted uv es
]
requests_accepted uv (connect_request host port ∷ es) = elim (uv.tcp_connect es) [
  | done ↦ suc (requests_accepted uv es)
  | error code ↦ requests_accepted uv es
]
requests_accepted uv (_ ∷ es) = requests_accepted uv es

-- All but writing and closing.
abbrev pub is_plain : Event → Bool
is_plain (write bytes) = false
is_plain close = false
is_plain close_unheard = false
is_plain _ = true

pub is_plain_lem :
    (e : Event) (es : List Event)
    → is_plain e ≡ true
    → (closes (e ∷ es) ≡ closes es) × (writes (e ∷ es) ≡ writes es)
is_plain_lem close es h = cc
is_plain_lem close_unheard es h = cc
is_plain_lem (write bytes) es h = cc
is_plain_lem _ es h = (refl, refl)

-- Plain, and no part in requests or buffers.
abbrev pub is_inert : Event → Bool
is_inert (write bytes) = false
is_inert close = false
is_inert close_unheard = false
is_inert (connect_request host port) = false
is_inert new_request = false
is_inert delete_request = false
is_inert (new_buffer size) = false
is_inert delete_buffer = false
is_inert _ = true

pub is_plain-is_inert : (e : Event) → is_inert e ≡ true → is_plain e ≡ true
is_plain-is_inert (write bytes) h = cc
is_plain-is_inert close h = cc
is_plain-is_inert close_unheard h = cc
is_plain-is_inert _ h = refl

pub is_inert_lem :
    (uv : Uv) (e : Event) (es : List Event)
    → is_inert e ≡ true
    → (requests_made (e ∷ es) ≡ requests_made es)
      × (requests_deleted (e ∷ es) ≡ requests_deleted es)
      × (requests_accepted uv (e ∷ es) ≡ requests_accepted uv es)
      × (buffers_made (e ∷ es) ≡ buffers_made es)
      × (buffers_deleted (e ∷ es) ≡ buffers_deleted es)
is_inert_lem uv (write bytes) es h = cc
is_inert_lem uv (connect_request host port) es h = cc
is_inert_lem uv new_request es h = cc
is_inert_lem uv delete_request es h = cc
is_inert_lem uv (new_buffer size) es h = cc
is_inert_lem uv delete_buffer es h = cc
is_inert_lem uv _ es h = (refl, refl, refl, refl, refl)
