-- ===== src/Stream/Events.antt =====
-- The registration of callbacks through `Client` of StreamServer.py, and `Server.on_connected`. Each
-- method wraps the callback in a lambda with as many parameters as the event has.
use live_translation.Common.{ℕ, true, Option, none, some, get_elem?, set, ◌==◌, if◌then◌else◌}
use live_translation.Common.Result.{Result, ok, ◌>>=◌}
use live_translation.Event
use live_translation.Tcp
use live_translation.Tcp.Events.{EventType, on_message, on_disconnect, parameters_of}
use live_translation.Udp
use live_translation.Stream.{Client, Server, Fault, tcp_object, from_udp}

module _ {F : Type 0} (s : Server F) (client : Client) where
  -- `self._tcpclient.on_event(...)`, and the id.
  unfoldable pub on_tcp_event : EventType → ℕ → Result Fault (Server F × Option ℕ)
  on_tcp_event type callback = do
    (address, tcpclient) ← tcp_object (get_elem? s.tcp client.tcpclient)
    let (registered, id) = Tcp.Events.on_event tcpclient type (parameters_of type) callback
    ok (record s { tcp = set s.tcp client.tcpclient (address, registered) }, id)

  -- `self._tcpclient.remove_event(...)`
  unfoldable pub remove_tcp_event : EventType → ℕ → Result Fault (Server F)
  remove_tcp_event type callback_id = do
    (address, tcpclient) ← tcp_object (get_elem? s.tcp client.tcpclient)
    let left = Tcp.Events.remove_event tcpclient type callback_id
    ok (record s { tcp = set s.tcp client.tcpclient (address, left) })

  unfoldable pub on_tcp_message : ℕ → Result Fault (Server F × Option ℕ)
  unfolding on_tcp_event
  on_tcp_message callback = on_tcp_event on_message callback

  unfoldable pub remove_on_tcp_message : ℕ → Result Fault (Server F)
  unfolding remove_tcp_event
  remove_on_tcp_message callback_id = remove_tcp_event on_message callback_id

  unfoldable pub on_disconnected : ℕ → Result Fault (Server F × Option ℕ)
  unfolding on_tcp_event
  on_disconnected callback = on_tcp_event on_disconnect callback

  unfoldable pub remove_on_disconnected : ℕ → Result Fault (Server F)
  unfolding remove_tcp_event
  remove_on_disconnected callback_id = remove_tcp_event on_disconnect callback_id

  unfoldable pub on_timeout : ℕ → Result Fault (Server F × Option ℕ)
  unfolding on_tcp_event
  on_timeout callback = on_tcp_event Tcp.Events.on_timeout callback

  unfoldable pub remove_on_timeout : ℕ → Result Fault (Server F)
  unfolding remove_tcp_event
  remove_on_timeout callback_id = remove_tcp_event Tcp.Events.on_timeout callback_id

  unfoldable pub on_udp_message : ℕ → Result Fault (Server F × Option ℕ)
  on_udp_message callback = do
    udpclient ← from_udp (Udp.deref s.udp client.udpclient)
    let (registered, id) = Udp.Events.on_event udpclient true 2 callback
    ok (record s { udp = Udp.put_client s.udp client.udpclient registered }, id)

  unfoldable pub remove_on_udp_message : ℕ → Result Fault (Server F)
  remove_on_udp_message callback_id = do
    udpclient ← from_udp (Udp.deref s.udp client.udpclient)
    let left = Udp.Events.remove_event udpclient true callback_id
    ok (record s { udp = Udp.put_client s.udp client.udpclient left })

module _ {F : Type 0} where
  -- `Server.on_connected`, for a callback with that many parameters; the id -1 is `none`.
  unfoldable pub on_connected : ℕ → ℕ → Server F → Server F × Option ℕ
  on_connected num_params callback s =
      let (handler, id) = Event.add_event s.connected_callbacks callback in
      if num_params == 1 then (record s { connected_callbacks = handler }, some id) else (s, none)

  unfoldable pub remove_on_connected : ℕ → Server F → Server F
  remove_on_connected callback_id s = record s {
    connected_callbacks = Event.remove_event s.connected_callbacks callback_id;
  }
