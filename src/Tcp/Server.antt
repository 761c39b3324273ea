-- ===== src/Tcp/Server.antt =====
-- The class `Server` of TCPserver.py. A client object is its index in `heap`, and the list of
-- clients holds such indices; a call on an index that is no object is `none`, and no index is such. The thread pool's queue of `client.start` calls is `pending`; a pool
-- that is shut down still runs what is in its queue. Sockets are only there or not.
use live_translation.Common.{
  ℕ, Bool, false, ◌&&◌, not, List, [], ◌∷◌, ◌++◌, Option, none, some, ◌==◌, length, get_elem?, set,
  if◌then◌else◌,
}
use live_translation.Common.Int.{ℤ, pos, ◌+ℤ◌, ◌-ℤ◌}
use live_translation.Ogg.Bytes.{Bytes}
use live_translation.Ogg.Utf8.{Text}
use live_translation.Event
use live_translation.Event.{EventHandler}
use live_translation.Tcp
use live_translation.Tcp.{Client, opened, is_closed}

pub record Server (F : Type 0) : Type 0 where
  pub timeout : F
  pub connected_callbacks : EventHandler ℕ
  pub heap : List (Client F)
  pub clients : List ℕ
  pub has_socket : Bool
  pub running : Bool
  pub has_pool : Bool
  pub pending : List ℕ
  pub active_clients_count : ℤ
  pub encryption : ℕ
  pub public_key : Option Bytes
  pub has_private_key : Bool
  pub secret_token : Text

-- The rest of a computation, unless an exception has ended it.
infixl 5 ◌>>=◌
abbrev pub ◌>>=◌ {ℓ κ} : {A : Type ℓ} {B : Type κ} → Option A → (A → Option B) → Option B
none >>= next = none
some a >>= next = next a

-- `self._clients.remove(client)`, which raises when the client is not there: `none`.
unfoldable pub remove_index : ℕ → List ℕ → Option (List ℕ)
remove_index c [] = none
remove_index c (d ∷ ds) =
    if c == d
    then some ds
    else elim (remove_index c ds) [ none ↦ none | some rest ↦ some (d ∷ rest) ]

module _ {F : Type 0} (zero_time : F) where
  -- The constructor of `Client`, as `_accept_clients` calls it.
  unfoldable pub new_client : Server F → Client F
  new_client s = record {
    conn = opened;
    ping_timeout_time = s.timeout;
    running = false;
    encryption = s.encryption;
    last_ping = zero_time;
    server_publickey = s.public_key;
    has_privatekey = s.has_private_key;
    client_key = none;
    client_initkey = none;
    secret_token = s.secret_token;
    connected_callbacks = s.connected_callbacks;
    disconnected_callbacks = Event.create;
    timeout_callbacks = Event.create;
    message_callbacks = Event.create;
    ping_callbacks = Event.create;
    sent = [];
    told = [];
  }

  -- A round of `_accept_clients` whose `accept` returns a connection.
  unfoldable pub accept : Server F → Server F
  unfolding new_client
  accept s =
      let c = length s.heap in
      let s' = record s { heap = s.heap ++ new_client s ∷ []; clients = s.clients ++ c ∷ [] } in
      if not (s.running && s.has_socket) then s else if not s.has_pool then s' else record s' {
        pending = s.pending ++ c ∷ [];
        active_clients_count = s.active_clients_count +ℤ pos 1;
      }

module _ {F : Type 0} where
  abbrev pub removed_from : Server F → Option (List ℕ) → Option (Server F)
  removed_from s none = none
  removed_from s (some rest) =
      some (record s { clients = rest; active_clients_count = s.active_clients_count -ℤ pos 1 })

  -- `_remove_client`; `none` is the exception of `remove`.
  unfoldable pub remove_client : Server F → ℕ → Option (Server F)
  unfolding remove_index
  remove_client s c = removed_from s (remove_index c s.clients)

  -- `client.stop()`, which calls `_remove_client` if it closes the connection.
  unfoldable pub stop_object : Server F → ℕ → Option (Client F) → Option (Server F)
  unfolding remove_client
  stop_object s c none = none
  stop_object s c (some client) =
      let s' = record s { heap = set s.heap c (Tcp.stop client) } in
      if client.running && not (is_closed client.conn) then remove_client s' c else some s'

  unfoldable pub stop_client : Server F → ℕ → Option (Server F)
  unfolding stop_object
  stop_client s c = stop_object s c (get_elem? s.heap c)

  -- The loop over the copied list.
  unfoldable pub stop_each : List ℕ → Server F → Option (Server F)
  unfolding stop_client
  stop_each [] s = some s
  stop_each (c ∷ cs) s = do stopped ← stop_client s c; stop_each cs stopped

  -- `stop`, up to the waits for the threads.
  unfoldable pub stop_server : Server F → Option (Server F)
  unfolding stop_each
  stop_server s = if not s.running then some s else (do
    stopped ← stop_each s.clients (record s { running = false })
    some (record stopped { has_socket = false }))
