-- ===== src/Tcp/Lifecycle.antt =====
-- Starting `Server` of TCPserver.py, and the calls that its owner makes afterwards. What the socket
-- does is an argument.
pub mod Stuck
use live_translation.Common.{
  ℕ, Bool, true, false, not, List, [], ◌∷◌, Option, none, some, ◌==◌, if◌then◌else◌,
}
use live_translation.Ogg.Bytes.{Bytes}
use live_translation.Event
use live_translation.Event.{EventHandler}
use live_translation.Tcp.Server.{Server, accept, stop_server}

-- How far the `try` block of `start` comes: to its end, not past `socket.socket`, or to one of the
-- calls on the socket, when `_socket` is set already.
pub data Opening : Type 0 where
  listens no_socket no_listening : Opening

-- `generate_keys`; the key pair is given by its public key.
unfoldable pub generate_keys : {F : Type 0} → Bytes → Server F → Server F
generate_keys public_key s = record s { public_key = some public_key; has_private_key = true }

module _ {F : Type 0} where
  -- The `try` block, and its `except`.
  unfoldable pub open_socket : Opening → Server F → Server F
  open_socket listens s = record s { has_socket = true }
  open_socket no_socket s = record s { running = false }
  open_socket no_listening s = record s { has_socket = true; running = false }

  -- `start` behind the generation of keys.
  unfoldable pub start_keyed : Opening → Server F → Server F
  unfolding open_socket
  start_keyed opening s =
      if s.has_socket then s else open_socket opening (record s { running = true; has_pool = true })

  unfoldable pub start : Bytes → Opening → Server F → Server F
  unfolding start_keyed generate_keys
  start public_key opening s =
      start_keyed opening (if s.encryption == 0 then s else generate_keys public_key s)

  -- `on_connected`, for a callback with that many parameters; the id -1 is `none`.
  unfoldable pub on_connected : ℕ → ℕ → Server F → Server F × Option ℕ
  on_connected num_params callback s =
      let (handler, id) = Event.add_event s.connected_callbacks callback in
      if num_params == 1 then (record s { connected_callbacks = handler }, some id) else (s, none)

  unfoldable pub remove_connected_event : ℕ → Server F → Server F
  remove_connected_event event_id s = record s {
    connected_callbacks = Event.remove_event s.connected_callbacks event_id;
  }

-- The calls of the owner, and a connection that arrives.
pub data Call : Type 0 where
  starts : Bytes → Opening → Call
  stops arrives : Call

module _ {F : Type 0} (zero_time : F) where
  -- One call; `none` is an exception of `stop`.
  unfoldable pub call : Call → Server F → Option (Server F)
  unfolding start
  call (starts public_key opening) s = some (start public_key opening s)
  call stops s = stop_server s
  call arrives s = some (accept zero_time s)

  unfoldable pub call_next : List Call → Option (Server F) → Option (Server F)
  unfolding call
  call_next [] s = s
  call_next (c ∷ calls) none = none
  call_next (c ∷ calls) (some s) = call_next calls (call c s)
