-- ===== src/Qt/Client.antt =====
-- qt_wrapper/src/qt_client.cpp: `QtClient`. The client that it wraps has other operations than the one
-- of include/libuv_net/client.hpp: it takes a `Message`, and tells a failed connection from a good
-- one. So the wrapped client is a parameter, with states `C`. A signal is queued for the thread of
-- the window, oldest first.
use Prim.Native.String.{String}
use libuv_net.Base.{ℕ, Bool, true, false, not, List, [], ◌∷◌, ◌++◌, if◌then◌else◌}

-- `send` is given the payload of a message of type DATA.
pub record ClientApi (C : Type 0) : Type 0 where
  pub connect : String → ℕ → C → Bool × C
  pub disconnect : C → C
  pub send : List ℕ → C → C
  pub is_connected : C → Bool

pub data Signal : Type 0 where
  connected disconnected : Signal
  message_received : List ℕ → Signal
  error : String → Signal

pub record QtClient (C : Type 0) : Type 0 where
  pub client : C
  pub signals : List Signal

module _ {C : Type 0} where
  abbrev pub emit : Signal → QtClient C → QtClient C
  emit signal q = record q { signals = q.signals ++ signal ∷ [] }

  -- The constructor, around a new client
  unfoldable pub new : C → QtClient C
  new client = record { client = client; signals = [] }

  unfoldable pub handle_connect : Bool → QtClient C → QtClient C
  handle_connect true q = emit connected q
  handle_connect false q = emit (error "连接失败") q

  unfoldable pub handle_message : List ℕ → QtClient C → QtClient C
  handle_message payload q = emit (message_received payload) q

  unfoldable pub handle_close : QtClient C → QtClient C
  handle_close q = emit disconnected q

module _ {C : Type 0} (api : ClientApi C) where
  unfoldable pub connect : String → ℕ → QtClient C → Bool × QtClient C
  connect host port q =
      let (started, c) = api.connect host port q.client in (started, record q { client = c })

  -- The destructor does the same.
  unfoldable pub disconnect : QtClient C → QtClient C
  disconnect q = record q { client = api.disconnect q.client }

  unfoldable pub send : List ℕ → QtClient C → QtClient C
  send data_bytes q =
      if not (api.is_connected q.client)
      then emit (error "未连接到服务器") q
      else record q { client = api.send data_bytes q.client }

  unfoldable pub is_connected : QtClient C → Bool
  is_connected q = api.is_connected q.client
