-- ===== src/Tcp/Shutdown.antt =====
-- What `Server.stop` of TCPserver.py does to the clients.
use live_translation.Common.{
  ℕ, ◌≡◌, false, List, [], ◌∷◌, ◌++◌, map, some, length, get_elem?, if◌then◌else◌,
}
use live_translation.Common.Int.{pos}
use live_translation.Tcp
use live_translation.Event
use live_translation.Tcp.{Client, closed, disconnected, removed}
use live_translation.Tcp.Server.{Server}
use live_translation.Tcp.Stopping.{IsAbsent, indices}

module _ {F : Type 0} where
  -- The heap holds at the index of each a client that does not run, and that has closed its
  -- connection and started its callbacks for that, if it ran before.
  abbrev pub AllStopped : List (Client F) → List (ℕ × Client F) → Type 0
  AllStopped heap [] = Unit {0}
  AllStopped heap ((c, client) ∷ objects) =
      ((stopped : Client F) × (get_elem? heap c ≡ some stopped)
        × (stopped.running ≡ false)
        × (stopped.conn ≡ (if client.running then closed else client.conn))
        × (stopped.told
            ≡ client.told
              ++ (if client.running
                  then map disconnected (Event.emit client.disconnected_callbacks) ++ removed ∷ []
                  else [])))
      × AllStopped heap objects

  -- The clients that a loop over them leaves in the list, and their count; it has stopped them all,
  -- and changed no other client.
  pub record Left (s t : Server F) (clients : List ℕ) (objects : List (ℕ × Client F)) : Type 0 where
    pub all_stopped : AllStopped t.heap objects
    pub others : (d : ℕ) → IsAbsent d (indices objects) → get_elem? t.heap d ≡ get_elem? s.heap d
    pub listed : t.clients ≡ clients
    pub counted : t.active_clients_count ≡ pos (length clients)
    pub same_running : t.running ≡ s.running
