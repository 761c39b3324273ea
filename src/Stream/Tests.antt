-- ===== src/Stream/Tests.antt =====
-- The theorem about the stream server at a client that has exchanged its keys.
use live_translation.Common.{ℕ, ◌≡◌, refl, Bool, true, false, [], ◌∷◌, none, some, map, get_elem?}
use live_translation.Common.Dict.{lookup}
use live_translation.Common.Result.{ok}
use live_translation.Ogg.Bytes.{Bytes}
use live_translation.Event
use live_translation.Tcp
use live_translation.Tcp.{Ciphers, opened}
use live_translation.Udp
use live_translation.Common.Int.{pos}
use live_translation.Tcp.Lifecycle.{no_listening}
use live_translation.Stream.Lifecycle.{start}
use live_translation.Udp.{find_address}
use live_translation.Udp.Listen.{receive, bind, message}
use live_translation.Stream.Stale.{stop-receive}
use live_translation.Stream.{stop, Server, client_at, on_tcp_connected}
use live_translation.Stream.Register.{fresh_client, on_tcp_connected-registers}

abbrev ciphers : Ciphers
ciphers = record {
  rsa_decrypt = λ payload. some payload;
  aes_decrypt = λ key initkey payload. some payload;
  aes_encrypt = λ key initkey payload. some payload;
}

abbrev address_message : ℕ → ℕ → Bool → Bytes
address_message host port encryption = host ∷ port ∷ []

abbrev tcpclient : Tcp.Client ℕ
tcpclient = record {
  conn = opened;
  ping_timeout_time = 5;
  running = true;
  encryption = 1;
  last_ping = 0;
  server_publickey = some (1 ∷ []);
  has_privatekey = true;
  client_key = some (2 ∷ []);
  client_initkey = some (3 ∷ []);
  secret_token = [];
  connected_callbacks = Event.create;
  disconnected_callbacks = Event.create;
  timeout_callbacks = Event.create;
  message_callbacks = Event.create;
  ping_callbacks = Event.create;
  sent = [];
  told = [];
}

abbrev udp : Udp.Server
udp = record {
  running = true;
  encryption = 1;
  heap = [];
  clients = [];
  locked = false;
  connected_callbacks = Event.create;
}

abbrev server : Server ℕ
server = record {
  external_host = 9;
  external_udpport = 5001;
  tcp = ((7, 4000), tcpclient) ∷ [];
  udp = udp;
  clients = [];
  connected_callbacks = Event.create;
}

on_tcp_connected-registers_example :
    (t : Server ℕ) × (on_tcp_connected ciphers address_message server 0 6
      ≡ ok (t, Event.emit server.connected_callbacks))
    × (client_at (7, 4000) t.clients ≡ some (record { tcpclient = 0; udpclient = 0 }))
    × (lookup 7 t.udp.clients ≡ some (0 ∷ []))
    × (get_elem? t.udp.heap 0 ≡ some (fresh_client udp 7 (2 ∷ []) (3 ∷ [])))
    × (t.udp.locked ≡ false)
on_tcp_connected-registers_example =
    on_tcp_connected-registers ciphers address_message server 0 6 (7, 4000) tcpclient (2 ∷ [])
      (3 ∷ []) refl refl refl refl

abbrev tcp_server : Tcp.Server.Server ℕ
tcp_server = record {
  timeout = 5;
  connected_callbacks = Event.create;
  heap = [];
  clients = [];
  has_socket = false;
  running = false;
  has_pool = false;
  pending = [];
  active_clients_count = pos 0;
  encryption = 1;
  public_key = none;
  has_private_key = false;
  secret_token = [];
}

-- Starting both servers raises nothing when the TCP server cannot listen.
start-no_listening :
    (start (4 ∷ []) no_listening true (tcp_server, record udp { running = false })).1 ≡ false
unfolding start Udp.Lifecycle.start
start-no_listening = refl

-- The client of host 7 has sent no datagram yet, nor has the one that came after it.
abbrev silent : Udp.Client
silent = fresh_client udp 7 (2 ∷ []) (3 ∷ [])

abbrev with_two : Server ℕ
with_two = record server {
  udp = record udp { heap = silent ∷ silent ∷ []; clients = (7, 0 ∷ 1 ∷ []) ∷ [] };
  clients = ((7, 4000), record { tcpclient = 0; udpclient = 0 }) ∷ [];
}

none_known : find_address with_two.udp (7, 6000) (0 ∷ 1 ∷ []) ≡ ok none
unfolding find_address Udp.deref
none_known = refl

stop-receive_example :
    (t : Server ℕ) × (stop with_two (record { tcpclient = 0; udpclient = 0 }) ≡ ok t)
    × (t.clients ≡ [])
    × (get_elem? t.tcp 0 ≡ some ((7, 4000), Tcp.stop tcpclient))
    × (t.udp ≡ with_two.udp)
    × (receive (λ payload key initkey. some payload) t.udp (7, 6000) (9 ∷ [])
        ≡ ok (
          Udp.put_client with_two.udp 0 (bind silent 6000),
          map (λ cb. message cb 0 (9 ∷ [])) (Event.emit silent.message_callback),
        ))
unfolding Event.emit
stop-receive_example =
    stop-receive (λ payload key initkey. some payload) with_two
      (record { tcpclient = 0; udpclient = 0 }) (7, 4000) tcpclient silent 6000 (1 ∷ []) (9 ∷ [])
      refl refl refl refl refl none_known
