-- ===== src/Tcp/Events.antt =====
-- `on_event` and `remove_event` of `Client` of TCPserver.py. A callback has a number of parameters
-- besides its own number, and an event type that is none of the four is `unsupported`.
pub mod Registration
use live_translation.Common.{ℕ, Option, none, some, ◌==◌, if◌then◌else◌}
use live_translation.Event
use live_translation.Event.{EventHandler}
use live_translation.Tcp.{Client}

pub data EventType : Type 0 where
  on_disconnect on_timeout on_message on_ping unsupported : EventType

-- How many parameters a callback must have.
abbrev pub parameters_of : EventType → ℕ
parameters_of on_disconnect = 1
parameters_of on_timeout = 1
parameters_of on_message = 2
parameters_of on_ping = 1
parameters_of unsupported = 0

module _ {F : Type 0} where
  -- `add_event` on a handler, with how it is put into the client.
  abbrev pub added : (EventHandler ℕ → Client F) → EventHandler ℕ × ℕ → Client F × Option ℕ
  added put (h, id) = (put h, some id)

  unfoldable pub on_event : Client F → EventType → ℕ → ℕ → Client F × Option ℕ
  on_event c on_disconnect num_params callback =
      if num_params == 1
      then added (λ h. record c { disconnected_callbacks = h })
          (Event.add_event c.disconnected_callbacks callback)
      else (c, none)
  on_event c on_timeout num_params callback =
      if num_params == 1
      then added (λ h. record c { timeout_callbacks = h })
          (Event.add_event c.timeout_callbacks callback)
      else (c, none)
  on_event c on_message num_params callback =
      if num_params == 2
      then added (λ h. record c { message_callbacks = h })
          (Event.add_event c.message_callbacks callback)
      else (c, none)
  on_event c on_ping num_params callback =
      if num_params == 1
      then added (λ h. record c { ping_callbacks = h }) (Event.add_event c.ping_callbacks callback)
      else (c, none)
  on_event c unsupported num_params callback = (c, none)

  unfoldable pub remove_event : Client F → EventType → ℕ → Client F
  remove_event c on_disconnect id = record c {
    disconnected_callbacks = Event.remove_event c.disconnected_callbacks id;
  }
  remove_event c on_timeout id = record c {
    timeout_callbacks = Event.remove_event c.timeout_callbacks id;
  }
  remove_event c on_message id = record c {
    message_callbacks = Event.remove_event c.message_callbacks id;
  }
  remove_event c on_ping id = record c { ping_callbacks = Event.remove_event c.ping_callbacks id }
  remove_event c unsupported id = c
