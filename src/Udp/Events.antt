-- ===== src/Udp/Events.antt =====
-- Registration of callbacks in UDPserver.py. A callback has a number of parameters besides its own
-- number; the id -1 of a refused registration is `none`.
use live_translation.Common.{ℕ, Bool, Option, none, some, ◌&&◌, ◌==◌, if◌then◌else◌}
use live_translation.Event
use live_translation.Event.{EventHandler}
use live_translation.Udp.{Client, Server}

abbrev pub client_added : Client → EventHandler ℕ × ℕ → Client × Option ℕ
client_added client (h, id) = (record client { message_callback = h }, some id)

-- `Client.on_event`: whether the type is "message", the parameters and the callback.
unfoldable pub on_event : Client → Bool → ℕ → ℕ → Client × Option ℕ
on_event client is_message num_params callback =
    if is_message && num_params == 2
    then client_added client (Event.add_event client.message_callback callback)
    else (client, none)

-- `Client.remove_event`
unfoldable pub remove_event : Client → Bool → ℕ → Client
remove_event client is_message callback_id =
    if is_message
    then record client { message_callback = Event.remove_event client.message_callback callback_id }
    else client

abbrev pub server_added : Server → EventHandler ℕ × ℕ → Server × Option ℕ
server_added s (h, id) = (record s { connected_callbacks = h }, some id)

-- `Server.on_connected`
unfoldable pub on_connected : Server → ℕ → ℕ → Server × Option ℕ
on_connected s num_params callback =
    if num_params == 1
    then server_added s (Event.add_event s.connected_callbacks callback)
    else (s, none)

-- `Server.remove_on_connected`
unfoldable pub remove_on_connected : Server → ℕ → Server
remove_on_connected s callback_id = record s {
  connected_callbacks = Event.remove_event s.connected_callbacks callback_id;
}
