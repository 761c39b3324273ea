-- ===== src/Stream/Register.antt =====
-- What the connection of a TCP client does in StreamServer.py.
use live_translation.Common.{
  ℕ, ◌≡◌, refl, Bool, true, false, List, [], ◌∷◌, ◌++◌, none, some, ◌==◌, arith, length, get_elem?,
  set, ==-self, if◌then◌else◌, not,
}
use live_translation.Common.Dict.{lookup, insert, lookup-insert_self}
use live_translation.Common.Result.{ok}
use live_translation.Ogg.Bytes.{Bytes}
use live_translation.Event
use live_translation.Tcp
use live_translation.Tcp.{Ciphers}
use live_translation.Udp
use live_translation.Udp.{Address, or_empty}
use live_translation.Stream.{
  Client, Server, is_address, client_at, keep_client, stops_with, on_tcp_connected,
}

is_address_self : (address : Address) → is_address address address ≡ true
is_address_self (host, port) = rw (==-self host, ==-self port)

client_at-keep_client :
    (address : Address) (client : Client) (entries : List (Address × Client))
    → client_at address (keep_client address client entries) ≡ some client
client_at-keep_client address client [] = rw (is_address_self address)
client_at-keep_client address client (entry ∷ entries) =
    ground (arith, is_address_self address, client_at-keep_client address client entries)

get_elem?-last {ℓ} :
    {A : Type ℓ} (xs : List A) (x : A) → get_elem? (xs ++ x ∷ []) (length xs) ≡ some x
get_elem?-last [] x = refl
get_elem?-last (y ∷ xs) x = get_elem?-last xs x

-- The UDP client of the host, with these keys and without a port.
abbrev pub fresh_client : Udp.Server → ℕ → Bytes → Bytes → Udp.Client
fresh_client s host key initkey = record {
  host = host;
  port = none;
  encryption = not (s.encryption == 0);
  aes_key = key;
  aes_initkey = initkey;
  message_callback = Event.create;
}

module _ {F : Type 0} (k : Ciphers) (init_udpaddr : ℕ → ℕ → Bool → Bytes) where
  -- A TCP client that is connected and has its keys is registered: the UDP server has, last in the
  -- list of the client's host, a new client object with the same keys and no port, and the pair of
  -- both is found under the address of the TCP client. All connected callbacks are started.
  -- Condition: nobody holds the lock of the UDP server.
  pub on_tcp_connected-registers :
      (s : Server F) (c callback : ℕ) (address : Address) (tcpclient : Tcp.Client F)
      (key initkey : Bytes)
      → get_elem? s.tcp c ≡ some (address, tcpclient)
      → tcpclient.client_key ≡ some key
      → tcpclient.client_initkey ≡ some initkey
      → s.udp.locked ≡ false
      → let u = length s.udp.heap in
        (t : Server F) × (on_tcp_connected k init_udpaddr s c callback
          ≡ ok (t, Event.emit s.connected_callbacks))
        × (client_at address t.clients ≡ some (record { tcpclient = c; udpclient = u }))
        × (lookup address.0 t.udp.clients
            ≡ some (or_empty (lookup address.0 s.udp.clients) ++ u ∷ []))
        × (get_elem? t.udp.heap u ≡ some (fresh_client s.udp address.0 key initkey))
        × (t.udp.locked ≡ false)
  unfolding on_tcp_connected Udp.add_client
  on_tcp_connected-registers s c callback address tcpclient key initkey there keyed keyed' free =
      let u = length s.udp.heap in
      let udp : Udp.Server = record s.udp {
        heap = s.udp.heap ++ fresh_client s.udp address.0 key initkey ∷ [];
        clients =
            insert address.0 (or_empty (lookup address.0 s.udp.clients) ++ u ∷ []) s.udp.clients;
        locked = false;
      } in
      let jsondata =
        init_udpaddr s.external_host s.external_udpport
          (if s.udp.encryption == 0 then false else true) in
      let t : Server F = record s {
        udp = udp;
        clients = keep_client address (record { tcpclient = c; udpclient = u }) s.clients;
        tcp = set s.tcp c (address, Tcp.send k (stops_with callback tcpclient) jsondata);
      } in
      (
        t,
        simp (there, keyed, keyed', free) refl,
        client_at-keep_client address _ s.clients,
        lookup-insert_self address.0 _ s.udp.clients,
        get_elem?-last s.udp.heap (fresh_client s.udp address.0 key initkey),
        refl,
      )
