-- ===== src/Udp/Remove.antt =====
-- How clients leave the server, and where they do not.
use live_translation.Common.{
  get_elem?-lt, ℕ, suc, ◌+◌, ◌+◌, ◌≡◌, refl, ap, Bool, true, false, List, [], ◌∷◌, none, some,
  get_elem?, get_elem?-set_self, ==-self, ◌∙◌,
}
use live_translation.Common.Dict.{lookup, lookup-insert_self}
use live_translation.Common.Result.{ok, err}
use live_translation.Event
use live_translation.Event.{EventHandler}
use live_translation.Ogg.Bytes.{Bytes}
use live_translation.Udp.{
  Address, Client, Server, deadlock, deref, put_client, find_address, remove_client_internal,
  client_stop, or_empty, release, keep_list, remove_client, stop_clients, stop_hosts, stop,
}
use live_translation.Udp.Choose.{found_port, ok-deref}

-- The lock has no part in the search.
find_address-locked :
    (s : Server) (b : Bool) (address : Address) (cs : List ℕ)
    → find_address (record s { locked = b }) address cs ≡ find_address s address cs
unfolding find_address deref
find_address-locked s b address [] = refl
find_address-locked s b address (c ∷ cs) = rw (find_address-locked s b address cs)

-- `remove_client` never returns when it finds a client with the address: it holds the lock while
-- it stops the client, which asks for the lock again.
pub remove_client-deadlock :
    (s : Server) (address : Address) (cs : List ℕ) (c : ℕ)
    → s.locked ≡ false
    → lookup address.0 s.clients ≡ some cs
    → find_address s address cs ≡ ok (some c)
    → remove_client s address ≡ err deadlock
unfolding remove_client client_stop remove_client_internal
remove_client-deadlock s address cs c free known found =
    let v = found_port s address cs c found in
    let held = record s { locked = true } in
    rw (
      free,
      known,
      find_address-locked s true address cs,
      found,
      ok-deref held c v.client v.object,
      v.bound,
    )

release-keep_list :
    (host : ℕ) (cs : List ℕ) (s : Server)
    → release (keep_list host cs (record s { locked = true })) ≡ release (keep_list host cs s)
release-keep_list host [] s = refl
release-keep_list host (c ∷ cs) s = refl

stop_clients-step :
    (rounds host i c : ℕ) (s t : Server)
    → get_elem? (or_empty (lookup host s.clients)) i ≡ some c
    → client_stop s c ≡ ok t
    → stop_clients (suc rounds) host i s ≡ stop_clients rounds host (i + 1) t
unfolding stop_clients
stop_clients-step rounds host i c s t e f = rw (e, stop_clients) (rw f)

stop_clients-end :
    (rounds host i : ℕ) (s : Server)
    → get_elem? (or_empty (lookup host s.clients)) i ≡ none
    → stop_clients (suc rounds) host i s ≡ ok s
unfolding stop_clients
stop_clients-end rounds host i s e = rw (e, stop_clients)

-- A client with a port, and the same client with its callbacks dropped, as `Client.stop` leaves it.
abbrev pub bound_client : ℕ → ℕ → Bool → Bytes → Bytes → EventHandler ℕ → Client
bound_client host port encryption key iv callbacks = record {
  host = host;
  port = some port;
  encryption = encryption;
  aes_key = key;
  aes_initkey = iv;
  message_callback = callbacks;
}

module _ (host port : ℕ) (encryption : Bool) (key iv : Bytes) (callbacks : EventHandler ℕ)
    (s : Server) (a : ℕ)
    (object_a : get_elem? s.heap a
      ≡ some (bound_client host port encryption key iv callbacks)) where
  abbrev quieted : Server
  quieted =
      put_client (record s { running = false; locked = false }) a
        (bound_client host port encryption key iv Event.create)

  found_first :
      (rest : List ℕ)
      → find_address (record quieted { locked = true }) (host, port) (a ∷ rest) ≡ ok (some a)
  unfolding find_address
  found_first rest =
      let client = bound_client host port encryption key iv Event.create in
      let there = get_elem?-lt s.heap a _ object_a in
      rw (
        ok-deref (record quieted { locked = true }) a client
            (get_elem?-set_self s.heap a client there),
        ==-self host,
        ==-self port,
      )

  -- Stopping the first client of its host's list takes it off the list.
  client_stop-first :
      (rest : List ℕ)
      → lookup host s.clients ≡ some (a ∷ rest)
      → client_stop (record s { running = false; locked = false }) a
        ≡ ok (release (keep_list host rest quieted))
  unfolding client_stop remove_client_internal
  client_stop-first rest listed =
      rw
        (
          ok-deref (record s { running = false; locked = false }) a _ object_a,
          listed,
          found_first rest,
          ==-self a,
        )
        (ap ok (release-keep_list host rest quieted))

  -- `stop` walks over the list that it shrinks: where the only host has two clients, of which the
  -- first has a port, it stops the first one and leaves the second in the list.
  pub stop-skips :
      (b : ℕ)
      → s.running ≡ true
      → s.locked ≡ false
      → s.clients ≡ (host, a ∷ b ∷ []) ∷ []
      → (t : Server) × (stop s ≡ ok t) × (lookup host t.clients ≡ some (b ∷ []))
  unfolding stop stop_hosts
  stop-skips b running free only =
      let idle = record s { running = false; locked = false } in
      let listed : lookup host s.clients ≡ some (a ∷ b ∷ []) =
        ap (lookup host) only ∙ rw (==-self host) in
      let t = release (keep_list host (b ∷ []) quieted) in
      let left : lookup host t.clients ≡ some (b ∷ []) =
        lookup-insert_self host (b ∷ []) s.clients in
      let first : stop_clients 2 host 0 idle ≡ stop_clients 1 host 1 t =
        stop_clients-step 1 host 0 a idle t (ap (λ l. get_elem? (or_empty l) 0) listed)
          (client_stop-first (b ∷ []) listed) in
      let last : stop_clients 1 host 1 t ≡ ok t =
        stop_clients-end 0 host 1 t (ap (λ l. get_elem? (or_empty l) 1) left) in
      let hosts : stop_hosts s.clients idle ≡ ok t =
        ap (λ d. stop_hosts d idle) only ∙ rw (first, last) in
      (t, rw (running, free, hosts), left)
