-- ===== src/Udp.antt =====
-- UDPserver.py. Hosts are only compared, so they are numbers; so are callbacks. A client object is
-- its index in `heap`; the lists of the dict `_clients` hold such indices. `_clients_lock` is a
-- `threading.Lock`, which is not reentrant: a call that asks for it while its own thread holds it
-- never returns, and is the fault `deadlock`.
pub mod Listen
pub mod Choose
pub mod Connect
pub mod Remove
pub mod Events
pub mod Lifecycle
mod Tests
use live_translation.Common.{
  ℕ, zero, suc, ◌+◌, Bool, true, false, ◌&&◌, not, List, [], ◌∷◌, ◌++◌, Option, none, some, ◌==◌,
  length, get_elem?, set, map, if◌then◌else◌,
}
use live_translation.Common.Dict.{Dict, lookup, insert, erase}
use live_translation.Common.Result.{Result, ok, err, ◌>>=◌, ◌>>◌, raise_if}
use live_translation.Ogg.Bytes.{Bytes}
use live_translation.Event
use live_translation.Event.{EventHandler}

-- `(host, port)`
abbrev pub Address : Type 0
Address = ℕ × ℕ

pub record Client : Type 0 where
  pub host : ℕ
  pub port : Option ℕ
  pub encryption : Bool
  pub aes_key : Bytes
  pub aes_initkey : Bytes
  pub message_callback : EventHandler ℕ

pub record Server : Type 0 where
  pub running : Bool
  pub encryption : ℕ
  pub heap : List Client
  pub clients : Dict (List ℕ)
  pub locked : Bool
  pub connected_callbacks : EventHandler ℕ

-- `no_object` is of the model: an index that is no object. No index in the dict is such.
pub data Fault : Type 0 where
  deadlock no_object : Fault

abbrev pub object : Option Client → Result Fault Client
object none = err no_object
object (some client) = ok client

unfoldable pub deref : Server → ℕ → Result Fault Client
deref s c = object (get_elem? s.heap c)

abbrev pub put_client : Server → ℕ → Client → Server
put_client s c client = record s { heap = set s.heap c client }

-- `self.address() == address`
abbrev pub has_address : Client → Address → Bool
has_address client (host, port) = elim client.port [
  | none ↦ false
  | some p ↦ client.host == host && p == port
]

-- `with self._clients_lock`
abbrev pub acquire : Server → Result Fault Server
acquire s = if s.locked then err deadlock else ok (record s { locked = true })

abbrev pub release : Server → Server
release s = record s { locked = false }

-- The first client of the list with that address.
unfoldable pub find_address : Server → Address → List ℕ → Result Fault (Option ℕ)
unfolding deref
find_address s address [] = ok none
find_address s address (c ∷ cs) = do
  client ← deref s c
  let rest = find_address s address cs
  if has_address client address then ok (some c) else rest

-- `clientslist.remove(client)`: the first entry that is this object.
abbrev pub remove_entry : ℕ → List ℕ → List ℕ
remove_entry c [] = []
remove_entry c (d ∷ ds) = if c == d then ds else d ∷ remove_entry c ds

-- The list of a host, written back; an empty list is popped from the dict.
abbrev pub keep_list : ℕ → List ℕ → Server → Server
keep_list host [] s = record s { clients = erase host s.clients }
keep_list host (c ∷ cs) s = record s { clients = insert host (c ∷ cs) s.clients }

-- The list without the client that was found.
abbrev pub without : Option ℕ → List ℕ → List ℕ
without none cs = cs
without (some c) cs = remove_entry c cs

-- `_remove_client` under the lock, with what the dict holds for the host.
unfoldable pub remove_from : Server → Address → Option (List ℕ) → Result Fault Server
remove_from held address none = ok (release held)
remove_from held address (some clientslist) = do
  found ← find_address held address clientslist
  ok (release (keep_list address.0 (without found clientslist) held))

-- `Server._remove_client`
unfoldable pub remove_client_internal : Server → Address → Result Fault Server
unfolding remove_from
remove_client_internal s address = do
  held ← acquire s
  remove_from held address (lookup address.0 s.clients)

-- `Client.stop`, with the client's port.
unfoldable pub stop_bound : Server → ℕ → Client → Option ℕ → Result Fault Server
stop_bound s c client none = ok s
stop_bound s c client (some port) =
    remove_client_internal (put_client s c (record client { message_callback = Event.create }))
      (client.host, port)

-- `Client.stop`
unfoldable pub client_stop : Server → ℕ → Result Fault Server
unfolding stop_bound
client_stop s c = do client ← deref s c; stop_bound s c client client.port

-- A host that is not in the dict has no clients.
abbrev pub or_empty : Option (List ℕ) → List ℕ
or_empty none = []
or_empty (some cs) = cs

-- `Server.add_client`: the server, and the new client object.
unfoldable pub add_client : Server → ℕ → Bytes → Bytes → Result Fault (Server × ℕ)
add_client s host aes_key aes_initkey = do
  let client : Client = record {
    host = host;
    port = none;
    encryption = not (s.encryption == 0);
    aes_key = aes_key;
    aes_initkey = aes_initkey;
    message_callback = Event.create;
  }
  let c = length s.heap
  held ← acquire (record s { heap = s.heap ++ client ∷ [] })
  let clientslist = or_empty (lookup host held.clients)
  ok (release (record held { clients = insert host (clientslist ++ c ∷ []) held.clients }), c)

-- What `remove_client` does with the client that it found, still under the lock.
unfoldable pub stop_found : Server → Option ℕ → Result Fault Server
stop_found held none = ok (release held)
stop_found held (some c) = do stopped ← client_stop held c; ok (release stopped)

unfoldable pub stop_address : Server → Address → Option (List ℕ) → Result Fault Server
unfolding stop_found
stop_address held address none = ok (release held)
stop_address held address (some clientslist) = do
  found ← find_address held address clientslist
  stop_found held found

-- `Server.remove_client`
unfoldable pub remove_client : Server → Address → Result Fault Server
unfolding stop_address
remove_client s address = do
  held ← acquire s
  stop_address held address (lookup address.0 s.clients)

-- The `for` loop over one of the lists in `Server.stop`. A list that shrinks under the loop is read
-- again at the next index; `rounds` is at least the number of entries that it had.
unfoldable pub stop_clients : ℕ → ℕ → ℕ → Server → Result Fault Server
stop_clients zero host i s = ok s
stop_clients (suc rounds) host i s = elim (get_elem? (or_empty (lookup host s.clients)) i) [
  | none ↦ ok s
  | some c ↦ do stopped ← client_stop s c; stop_clients rounds host (i + 1) stopped
]

-- The loop over the hosts of the copied dict.
unfoldable pub stop_hosts : Dict (List ℕ) → Server → Result Fault Server
stop_hosts [] s = ok s
stop_hosts ((host, clientslist) ∷ hosts) s = do
  stopped ← stop_clients (length clientslist) host 0 s
  stop_hosts hosts stopped

-- `Server.stop`, without the calls of the socket and the wait for the listening thread.
unfoldable pub stop : Server → Result Fault Server
unfolding stop_hosts
stop s =
    if not s.running
    then ok s
    else (do held ← acquire (record s { running = false }); stop_hosts held.clients (release held))
