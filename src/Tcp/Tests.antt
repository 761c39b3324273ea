-- ===== src/Tcp/Tests.antt =====
-- Runs of a TCP client, and the theorems about it at these runs.
use live_translation.Common.{ℕ, ◌≡◌, refl, true, false, List, [], ◌∷◌, none, some, arith}
use live_translation.Common.Int.{ℤ, pos, ◌-ℤ◌}
use live_translation.Common.Ticks.{ticks}
use live_translation.Ogg.Bytes.{unicode_error}
use live_translation.Ogg.Utf8.{decode}
use live_translation.Event.{EventHandler, emit}
use live_translation.Tcp.{
  Client, opened, connected, disconnected, message, ping, removed, arrives, fails, Act, round,
  calls_stop, ended, crashed, Ciphers, ping_message, ping_timeout, reset_ping, send, incoming,
  handle_ping,
}
use live_translation.Tcp.Loops
use live_translation.Tcp.Removal.{IsTracked, start-IsTracked}
use live_translation.Tcp.Access.{IsGuarded, start-IsGuarded}
use live_translation.Tcp.Server.{Server}
use live_translation.Tcp.Lifecycle
use live_translation.Tcp.Lifecycle.{no_listening, listens, starts, stops, call_next}
use live_translation.Tcp.Lifecycle.Stuck.{IsStuck, call_next-IsStuck}
use live_translation.Tcp.Events.{on_message}
use live_translation.Tcp.Events.Registration.{Registers, remove_event-on_event}
use live_translation.Tcp.Outcome.{listen-silent, start-undecodable}

-- Ciphers that change nothing, with any key.
abbrev ciphers : Ciphers
ciphers = record {
  rsa_decrypt = λ payload. some payload;
  aes_decrypt = λ key initkey payload. some payload;
  aes_encrypt = λ key initkey payload. some payload;
}

abbrev handler : ℕ → EventHandler ℕ
handler cb = record { callbacks = (0, cb) ∷ []; next_id = 1 }

-- The secret token is "ab".
abbrev client : Client ℤ
client = record {
  conn = opened;
  ping_timeout_time = pos 5;
  running = false;
  encryption = 0;
  last_ping = pos 0;
  server_publickey = none;
  has_privatekey = false;
  client_key = none;
  client_initkey = none;
  secret_token = 97 ∷ 98 ∷ [];
  connected_callbacks = handler 1;
  disconnected_callbacks = handler 2;
  timeout_callbacks = handler 3;
  message_callbacks = handler 4;
  ping_callbacks = handler 5;
  sent = [];
  told = [];
}

-- The token, a message, a ping, and a broken connection.
abbrev visit : List (Act ℤ)
visit =
    round (pos 1) (arrives (97 ∷ 98 ∷ [])) (pos 1)
    ∷ round (pos 2) (arrives (7 ∷ [])) (pos 2)
    ∷ round (pos 3) (arrives ping_message) (pos 4)
    ∷ round (pos 5) fails (pos 5)
    ∷ calls_stop
    ∷ []

start-visit :
    (Loops.start ticks ciphers client (pos 0) (pos 1) visit).0.told
    ≡ connected 1 ∷ message 4 (7 ∷ []) ∷ ping 5 ∷ disconnected 2 ∷ removed ∷ []
unfolding Loops.start emit ◌-ℤ◌ decode reset_ping send incoming handle_ping
start-visit = refl

start-IsTracked_example : IsTracked (Loops.start ticks ciphers client (pos 0) (pos 1) visit).0
start-IsTracked_example = start-IsTracked ticks ciphers client (pos 0) (pos 1) visit refl

start-IsGuarded_example :
    IsGuarded ticks ciphers
      (97 ∷ 98 ∷ [])
      0
      visit
      (Loops.start ticks ciphers client (pos 0) (pos 1) visit)
start-IsGuarded_example = start-IsGuarded ticks ciphers client (pos 0) (pos 1) visit tt

abbrev running_client : Client ℤ
running_client = record client { running = true }

listen-silent_example :
    Loops.run_loop ticks ciphers
      (Loops.listen_round ticks ciphers)
      running_client
      (round (pos 1) (arrives []) (pos 1) ∷ round (pos 9) (arrives []) (pos 9) ∷ [])
    ≡ (ping_timeout running_client, ended, [])
unfolding ◌-ℤ◌
listen-silent_example =
    listen-silent ticks ciphers running_client ((pos 1, pos 1) ∷ []) (pos 9) (pos 9) [] refl
      (refl, tt) refl

start-undecodable_example :
    let (c', verdict) =
      Loops.start ticks ciphers client
        (pos 0)
        (pos 1)
        (round (pos 2) (arrives (255 ∷ [])) (pos 2) ∷ []) in
    (verdict ≡ crashed) × (c'.running ≡ true) × (c'.conn ≡ opened) × (c'.told ≡ [])
unfolding ◌-ℤ◌ decode
start-undecodable_example =
    start-undecodable ticks ciphers client (pos 0) (pos 1) (pos 2) (pos 2) 255 [] [] unicode_error
      refl refl refl refl refl

-- A server with a client that runs, and one that waits in the queue of the pool.
abbrev server : Server ℤ
server = record {
  timeout = pos 5;
  connected_callbacks = handler 1;
  heap = running_client ∷ client ∷ [];
  clients = 0 ∷ 1 ∷ [];
  has_socket = true;
  running = true;
  has_pool = true;
  pending = 1 ∷ [];
  active_clients_count = pos 2;
  encryption = 0;
  public_key = none;
  has_private_key = false;
  secret_token = 97 ∷ 98 ∷ [];
}

remove_event-on_event_example : Registers client on_message 8 on_message
remove_event-on_event_example =
    remove_event-on_event client on_message on_message 8 refl (omega arith, refl, tt)

-- A server that is not started yet, and cannot listen; later calls do not help.
abbrev fresh_server : Server ℤ
fresh_server = record server {
  heap = [];
  clients = [];
  has_socket = false;
  running = false;
  has_pool = false;
  pending = [];
  active_clients_count = pos 0;
}

call_next-IsStuck_example :
    (s : Server ℤ) × (call_next
        (pos 0)
        (starts (1 ∷ []) no_listening ∷ stops ∷ starts (1 ∷ []) listens ∷ Lifecycle.arrives ∷ [])
        (some fresh_server)
      ≡ some s)
    × IsStuck (pos 0) fresh_server s
call_next-IsStuck_example =
    call_next-IsStuck (pos 0) fresh_server (1 ∷ [])
      (stops ∷ starts (1 ∷ []) listens ∷ Lifecycle.arrives ∷ []) refl
