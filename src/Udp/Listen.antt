-- ===== src/Udp/Listen.antt =====
-- The loop `_listen` of `Server` of UDPserver.py: a round of it is `receive`.
use live_translation.Common.{
  ℕ, Bool, true, false, List, [], ◌∷◌, ◌++◌, Option, none, some, ◌==◌, map, if◌then◌else◌,
}
use live_translation.Common.Dict.{lookup}
use live_translation.Common.Result.{Result, ok, ◌>>=◌}
use live_translation.Ogg.Bytes.{Bytes}
use live_translation.Event
use live_translation.Udp.{
  Address, Client, Server, Fault, deref, put_client, acquire, release, find_address,
}

-- What a round does beside the changes of the state: callbacks that are started, with their client,
-- and the end of the thread by what decrypting raised, which nothing catches.
pub data Emitted : Type 0 where
  connected : ℕ → ℕ → Emitted
  message : ℕ → ℕ → Bytes → Emitted
  thread_ends : Emitted

-- The first client of the list that has no port yet.
unfoldable pub find_unbound : Server → List ℕ → Result Fault (Option ℕ)
unfolding deref
find_unbound s [] = ok none
find_unbound s (c ∷ cs) = do
  client ← deref s c
  let rest = find_unbound s cs
  elim client.port [ none ↦ ok (some c) | some p ↦ rest ]

-- `client._port = port`
abbrev pub bind : Client → ℕ → Client
bind client port = record client { port = some port }

-- The first client that has no port is given the port.
unfoldable pub choose_unbound : Server → ℕ → Option ℕ → Result Fault (Server × Option ℕ)
choose_unbound s port none = ok (s, none)
choose_unbound s port (some c) = do
  client ← deref s c
  ok (put_client s c (bind client port), some c)

unfoldable pub choose_known : Server → ℕ → List ℕ → Option ℕ → Result Fault (Server × Option ℕ)
unfolding choose_unbound
choose_known s port clientlist (some c) = ok (s, some c)
choose_known s port clientlist none = do
  unbound ← find_unbound s clientlist
  choose_unbound s port unbound

-- The client of a datagram: the one with its address, or else the first that has no port.
unfoldable pub choose : Server → Address → List ℕ → Result Fault (Server × Option ℕ)
unfolding choose_known
choose s address clientlist = do
  known ← find_address s address clientlist
  choose_known s address.1 clientlist known

abbrev pub is_none {ℓ} : {A : Type ℓ} → Option A → Bool
is_none none = true
is_none (some a) = false

-- `client._message_callback.emit(client, data)`, or the exception of the line before it.
abbrev pub handed : ℕ → Client → Option Bytes → List Emitted
handed c client none = thread_ends ∷ []
handed c client (some payload) =
    map (λ cb. message cb c payload) (Event.emit client.message_callback)

-- The AES cipher on data, key and init vector; `none` is that it raises.
module _ (decrypt : Bytes → Bytes → Bytes → Option Bytes) where
  -- The end of a round of `_listen`, from the check of the client's port on.
  unfoldable pub deliver : Server → ℕ → ℕ → Bytes → Result Fault (Server × List Emitted)
  deliver s c port payload = do
    client ← deref s c
    let is_new = is_none client.port
    let bound = if is_new then put_client s c (bind client port) else s
    let announced =
        if is_new then map (λ cb. connected cb c) (Event.emit s.connected_callbacks) else []
    let text =
        if s.encryption == 0
        then some payload
        else decrypt payload client.aes_key client.aes_initkey
    ok (bound, announced ++ handed c client text)

  unfoldable pub deliver_to : Server → Option ℕ → ℕ → Bytes → Result Fault (Server × List Emitted)
  unfolding deliver
  deliver_to s none port payload = ok (s, [])
  deliver_to s (some c) port payload = deliver s c port payload

  unfoldable pub receive_from :
      Server → Address → Bytes → Option (List ℕ) → Result Fault (Server × List Emitted)
  unfolding choose deliver_to
  receive_from s address payload none = ok (s, [])
  receive_from s address payload (some clientlist) = do
    (chosen, client) ← choose s address clientlist
    deliver_to chosen client address.1 payload

  -- A round of `_listen` that received a datagram.
  unfoldable pub receive : Server → Address → Bytes → Result Fault (Server × List Emitted)
  unfolding receive_from
  receive s address payload = do
    held ← acquire s
    receive_from (release held) address payload (lookup address.0 s.clients)
