-- ===== src/Udp/Tests.antt =====
-- Tests of the UDP server, and the theorems about it at a server with two clients of one host.
use live_translation.Common.{ℕ, ◌≡◌, refl, true, false, [], ◌∷◌, Option, none, some}
use live_translation.Common.Dict.{lookup}
use live_translation.Common.Result.{ok, err}
use live_translation.Event.{EventHandler}
use live_translation.Ogg.Bytes.{Bytes}
use live_translation.Udp.{Client, Server, deadlock, find_address, remove_client, stop}
use live_translation.Udp.Remove.{bound_client, remove_client-deadlock, stop-skips}

abbrev callbacks : EventHandler ℕ
callbacks = record { callbacks = (0, 7) ∷ []; next_id = 1 }

abbrev first : Client
first = bound_client 5 4000 false [] [] callbacks

abbrev second : Client
second = record first { port = none }

abbrev server : Server
server = record {
  running = true;
  encryption = 0;
  heap = first ∷ second ∷ [];
  clients = (5, 0 ∷ 1 ∷ []) ∷ [];
  locked = false;
  connected_callbacks = callbacks;
}

-- Decryption raises, but is not called on an unencrypted server.
abbrev plain : Bytes → Bytes → Bytes → Option Bytes
plain payload key iv = none

-- The server once the second client has its port.
abbrev joined : Server
joined = record server { heap = first ∷ record second { port = some 4001 } ∷ [] }

find_address-first : find_address server (5, 4000) (0 ∷ 1 ∷ []) ≡ ok (some 0)
unfolding find_address
find_address-first = refl

remove_client-deadlock_example : remove_client server (5, 4000) ≡ err deadlock
remove_client-deadlock_example =
    remove_client-deadlock server (5, 4000) (0 ∷ 1 ∷ []) 0 refl refl find_address-first

stop-skips_example : (t : Server) × (stop server ≡ ok t) × (lookup 5 t.clients ≡ some (1 ∷ []))
stop-skips_example = stop-skips 5 4000 false [] [] callbacks server 0 refl 1 refl refl refl
