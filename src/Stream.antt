-- ===== src/Stream.antt =====
-- StreamServer.py. A TCP client object is its index in `tcp`, beside its address; a UDP client
-- object is an index of the UDP server; a `Client` of this file is the pair of both. The hosts are
-- numbers, as in Udp. The bytes of the JSON message are a parameter. Callbacks are numbers, and what
-- they do when they run is not part of the model.
pub mod Register
pub mod Stale
pub mod Events
pub mod Lifecycle
mod Tests
use live_translation.Common.{
  ℕ, Bool, true, false, ◌&&◌, List, [], ◌∷◌, Option, none, some, ◌==◌, get_elem?, set,
  if◌then◌else◌,
}
use live_translation.Common.Result.{Result, ok, err, ◌>>=◌}
use live_translation.Ogg.Bytes.{Bytes}
use live_translation.Event
use live_translation.Event.{EventHandler}
use live_translation.Tcp
use live_translation.Tcp.{Ciphers}
use live_translation.Udp
use live_translation.Udp.{Address}

pub record Client : Type 0 where
  pub tcpclient : ℕ
  pub udpclient : ℕ

pub record Server (F : Type 0) : Type 0 where
  pub external_host : ℕ
  pub external_udpport : ℕ
  pub tcp : List (Address × Tcp.Client F)
  pub udp : Udp.Server
  pub clients : List (Address × Client)
  pub connected_callbacks : EventHandler ℕ

-- What `_on_tcp_connected` and `stop` raise: the ValueError, or what the UDP server does not
-- return from. `no_object` is of the model: an index that is no object.
pub data Fault : Type 0 where
  no_keys no_object : Fault
  udp_fault : Udp.Fault → Fault

abbrev pub from_udp {ℓ} : {A : Type ℓ} → Result Udp.Fault A → Result Fault A
from_udp (ok a) = ok a
from_udp (err e) = err (udp_fault e)

abbrev pub is_address : Address → Address → Bool
is_address (host, port) (host', port') = host == host' && port == port'

-- The dict `_clients`: `d.get(key)`, `d[key] = client` and `d.pop(key, None)`.
abbrev pub client_at : Address → List (Address × Client) → Option Client
client_at address [] = none
client_at address (entry ∷ entries) =
    let rest = client_at address entries in
    if is_address address entry.0 then some entry.1 else rest

abbrev pub keep_client : Address → Client → List (Address × Client) → List (Address × Client)
keep_client address client [] = (address, client) ∷ []
keep_client address client (entry ∷ entries) =
    let rest = keep_client address client entries in
    if is_address address entry.0 then (address, client) ∷ entries else entry ∷ rest

abbrev pub pop_client : Address → List (Address × Client) → List (Address × Client)
pop_client address [] = []
pop_client address (entry ∷ entries) =
    let rest = pop_client address entries in
    if is_address address entry.0 then entries else entry ∷ rest

abbrev pub tcp_object {ℓ} : {A : Type ℓ} → Option A → Result Fault A
tcp_object none = err no_object
tcp_object (some client) = ok client

abbrev pub keys_of : Option Bytes → Option Bytes → Result Fault (Bytes × Bytes)
keys_of none initkey = err no_keys
keys_of (some key) none = err no_keys
keys_of (some key) (some initkey) = ok (key, initkey)

-- `Client.__init__`: the callback that stops the client, for a lost connection and for a timeout.
unfoldable pub stops_with : {F : Type 0} → ℕ → Tcp.Client F → Tcp.Client F
stops_with callback tcpclient = record tcpclient {
  disconnected_callbacks = (Event.add_event tcpclient.disconnected_callbacks callback).0;
  timeout_callbacks = (Event.add_event tcpclient.timeout_callbacks callback).0;
}

module _ {F : Type 0} (k : Ciphers) (init_udpaddr : ℕ → ℕ → Bool → Bytes) where
  -- `_on_tcp_connected`: the server, and the callbacks that are started with the new client.
  unfoldable pub on_tcp_connected : Server F → ℕ → ℕ → Result Fault (Server F × List ℕ)
  unfolding stops_with
  on_tcp_connected s c callback = do
    (address, tcpclient) ← tcp_object (get_elem? s.tcp c)
    (aes_key, aes_initkey) ← keys_of tcpclient.client_key tcpclient.client_initkey
    (udp, u) ← from_udp (Udp.add_client s.udp address.0 aes_key aes_initkey)
    let udp_encryption = if s.udp.encryption == 0 then false else true
    let jsondata = init_udpaddr s.external_host s.external_udpport udp_encryption
    ok (
      record s {
        udp = udp;
        clients = keep_client address (record { tcpclient = c; udpclient = u }) s.clients;
        tcp = set s.tcp c (address, Tcp.send k (stops_with callback tcpclient) jsondata);
      },
      Event.emit s.connected_callbacks,
    )

module _ {F : Type 0} where
  -- `Server._remove_client`, on the address of the client.
  unfoldable pub remove_client : Server F → Address → Server F
  remove_client s address = record s { clients = pop_client address s.clients }

  -- `Client.stop`.
  unfoldable pub stop : Server F → Client → Result Fault (Server F)
  unfolding remove_client
  stop s client = do
    (address, tcpclient) ← tcp_object (get_elem? s.tcp client.tcpclient)
    udp ← from_udp (Udp.client_stop s.udp client.udpclient)
    ok (
        remove_client
          (record s { tcp = set s.tcp client.tcpclient (address, Tcp.stop tcpclient); udp = udp })
          address)

  -- `Client.send_message`.
  unfoldable pub send_message : Ciphers → Server F → Client → Bytes → Result Fault (Server F)
  send_message k s client payload = do
    (address, tcpclient) ← tcp_object (get_elem? s.tcp client.tcpclient)
    ok (record s { tcp = set s.tcp client.tcpclient (address, Tcp.send k tcpclient payload) })
