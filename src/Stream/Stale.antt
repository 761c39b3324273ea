-- ===== src/Stream/Stale.antt =====
-- A client of StreamServer.py that leaves before its first datagram.
use live_translation.Common.{
  get_elem?-lt, ℕ, ◌≡◌, refl, sym, ap, ◌∙◌, false, List, ◌∷◌, Option, none, some, ◌==◌, get_elem?,
  get_elem?-set_self, set, if◌then◌else◌,
}
use live_translation.Common.Dict.{lookup}
use live_translation.Common.Result.{ok}
use live_translation.Ogg.Bytes.{Bytes}
use live_translation.Tcp
use live_translation.Udp
use live_translation.Udp.{Address, deref, client_stop, stop_bound, put_client, find_address}
use live_translation.Udp.Listen.{
  receive, receive_from, deliver_to, deliver, choose, choose_known, choose_unbound, find_unbound,
  bind, handed,
}
use live_translation.Stream.{Client, Server, pop_client, remove_client, stop}

module _ (decrypt : Bytes → Bytes → Bytes → Option Bytes) where
  -- The text that is handed on, for the keys of a client.
  abbrev pub text_for : Udp.Server → Udp.Client → Bytes → Option Bytes
  text_for s client payload =
      if s.encryption == 0 then some payload else decrypt payload client.aes_key client.aes_initkey

  find_unbound-first :
      (s : Udp.Server) (u : ℕ) (others : List ℕ) (udpclient : Udp.Client)
      → get_elem? s.heap u ≡ some udpclient
      → udpclient.port ≡ none
      → find_unbound s (u ∷ others) ≡ ok (some u)
  unfolding find_unbound deref
  find_unbound-first s u others udpclient there unbound = simp (there, unbound) refl

  choose-first :
      (s : Udp.Server) (u port : ℕ) (others : List ℕ) (udpclient : Udp.Client)
      → get_elem? s.heap u ≡ some udpclient
      → udpclient.port ≡ none
      → find_address s (udpclient.host, port) (u ∷ others) ≡ ok none
      → choose s (udpclient.host, port) (u ∷ others)
        ≡ ok (put_client s u (bind udpclient port), some u)
  unfolding choose choose_known choose_unbound deref
  choose-first s u port others udpclient there unbound unknown =
      simp (unknown, find_unbound-first s u others udpclient there unbound, there) refl

  deliver-bound :
      (s : Udp.Server) (u port : ℕ) (udpclient : Udp.Client) (payload : Bytes)
      → get_elem? s.heap u ≡ some udpclient
      → deliver decrypt (put_client s u (bind udpclient port)) u port payload
        ≡ ok (
          put_client s u (bind udpclient port),
          handed u udpclient (text_for s udpclient payload),
        )
  unfolding deliver deref
  deliver-bound s u port udpclient payload there =
      let e =
        get_elem?-set_self s.heap u (bind udpclient port) (get_elem?-lt s.heap u udpclient there) in
      rw e refl

  receive_from-first :
      (s : Udp.Server) (u port : ℕ) (others : List ℕ) (udpclient : Udp.Client) (payload : Bytes)
      → get_elem? s.heap u ≡ some udpclient
      → udpclient.port ≡ none
      → find_address s (udpclient.host, port) (u ∷ others) ≡ ok none
      → receive_from decrypt s (udpclient.host, port) payload (some (u ∷ others))
        ≡ ok (
          put_client s u (bind udpclient port),
          handed u udpclient (text_for s udpclient payload),
        )
  unfolding receive_from deliver_to
  receive_from-first s u port others udpclient payload there unbound unknown =
      rw (choose-first s u port others udpclient there unbound unknown)
        (deliver-bound s u port udpclient payload there)

  receive-released :
      (s : Udp.Server) (address : Address) (payload : Bytes)
      → s.locked ≡ false
      → receive decrypt s address payload
        ≡ receive_from decrypt s address payload (lookup address.0 s.clients)
  unfolding receive
  receive-released s address payload free =
      let same : record s { locked = false } ≡ s = ap (λ b. record s { locked = b }) (sym free) in
      simp free (ap (λ z. receive_from decrypt z address payload (lookup address.0 s.clients)) same)

  -- A client that leaves before its first datagram is closed and taken out of the clients, but the
  -- UDP server keeps all that it has. If it is the first of its host there, the next datagram from
  -- an address of that host that no client has is its own: it gets the port, and the datagram is
  -- handed to its callbacks only, as decrypted with its keys; if decrypting raises, to none, and the
  -- thread ends. Condition: nobody holds the lock of
  -- the UDP server.
  pub stop-receive :
      {F : Type 0} (s : Server F) (client : Client) (address : Address) (tcpclient : Tcp.Client F)
      (udpclient : Udp.Client) (port : ℕ) (others : List ℕ) (payload : Bytes)
      → get_elem? s.tcp client.tcpclient ≡ some (address, tcpclient)
      → get_elem? s.udp.heap client.udpclient ≡ some udpclient
      → udpclient.port ≡ none
      → s.udp.locked ≡ false
      → lookup udpclient.host s.udp.clients ≡ some (client.udpclient ∷ others)
      → find_address s.udp (udpclient.host, port) (client.udpclient ∷ others) ≡ ok none
      → (t : Server F) × (stop s client ≡ ok t)
        × (t.clients ≡ pop_client address s.clients)
        × (get_elem? t.tcp client.tcpclient ≡ some (address, Tcp.stop tcpclient))
        × (t.udp ≡ s.udp)
        × (receive decrypt t.udp (udpclient.host, port) payload
            ≡ ok (
              put_client s.udp client.udpclient (bind udpclient port),
              handed client.udpclient udpclient (text_for s.udp udpclient payload),
            ))
  unfolding stop remove_client client_stop stop_bound deref
  stop-receive s client address tcpclient udpclient port others payload here there unbound free
        listed unknown =
      let t = record s {
        tcp = set s.tcp client.tcpclient (address, Tcp.stop tcpclient);
        clients = pop_client address s.clients;
      } in
      let first = client.udpclient in
      (
        t,
        simp (here, there, unbound) refl,
        refl,
        get_elem?-set_self s.tcp client.tcpclient (address, Tcp.stop tcpclient)
            (get_elem?-lt s.tcp client.tcpclient (address, tcpclient) here),
        refl,
        receive-released s.udp (udpclient.host, port) payload free
            ∙ ap (receive_from decrypt s.udp (udpclient.host, port) payload) listed
            ∙ receive_from-first s.udp first port others udpclient payload there unbound unknown,
      )
