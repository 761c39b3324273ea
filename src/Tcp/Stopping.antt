-- ===== src/Tcp/Stopping.antt =====
-- What stopping one client does to the list of the server in TCPserver.py.
use live_translation.Common.{
  ℕ, ◌≡◌, refl, ap, ◌∙◌, true, false, not, List, [], ◌∷◌, ◌++◌, map, some, ◌==◌, arith, filter,
  length, get_elem?, set, get_elem?-set_ne, length-append, ==-self,
}
use live_translation.Common.Int.{pos, ◌-ℤ◌, int_laws}
use live_translation.Tcp
use live_translation.Tcp.{Client, closed, disconnected, removed, is_closed}
use live_translation.Tcp.Server.{Server, remove_index, remove_client, stop_object, stop_client}

-- The index stands nowhere in the list.
abbrev pub IsAbsent : ℕ → List ℕ → Type 0
IsAbsent c [] = Unit {0}
IsAbsent c (d ∷ ds) = ((c == d) ≡ false) × IsAbsent c ds

remove_index-append :
    (c : ℕ) (front back : List ℕ)
    → IsAbsent c front
    → remove_index c (front ++ c ∷ back) ≡ some (front ++ back)
unfolding remove_index
remove_index-append c [] back h = rw (==-self c)
remove_index-append c (d ∷ front) back h = rw (h.0, remove_index-append c front back h.1)

append-IsAbsent :
    (c d : ℕ) (front : List ℕ) → IsAbsent c front → (c == d) ≡ false → IsAbsent c (front ++ d ∷ [])
append-IsAbsent c d [] h g = (g, tt)
append-IsAbsent c d (e ∷ front) h g = (h.0, append-IsAbsent c d front h.1 g)

pub pos_less_one :
    (front back : List ℕ) (c : ℕ)
    → pos (length (front ++ c ∷ back)) -ℤ pos 1 ≡ pos (length (front ++ back))
pos_less_one front back c =
    omega (int_laws, length-append front (c ∷ back), length-append front back)

module _ {F : Type 0} where
  abbrev pub indices : List (ℕ × Client F) → List ℕ
  indices objects = map (λ e. e.0) objects

  -- The heap holds these clients at these indices, and their connections are there.
  abbrev pub AllAt : List (Client F) → List (ℕ × Client F) → Type 0
  AllAt heap [] = Unit {0}
  AllAt heap ((c, client) ∷ objects) =
      (get_elem? heap c ≡ some client) × (is_closed client.conn ≡ false) × AllAt heap objects

  -- No index stands in `front` or twice.
  abbrev pub AllDistinct : List ℕ → List (ℕ × Client F) → Type 0
  AllDistinct front [] = Unit {0}
  AllDistinct front ((c, client) ∷ objects) =
      IsAbsent c front × IsAbsent c (indices objects) × AllDistinct front objects

  -- Those whose `start` has not begun to run.
  abbrev pub idle : List (ℕ × Client F) → List (ℕ × Client F)
  idle objects = filter (λ e. not e.1.running) objects

  pub set-AllAt :
      (heap : List (Client F)) (c : ℕ) (client : Client F) (objects : List (ℕ × Client F))
      → IsAbsent c (indices objects)
      → AllAt heap objects
      → AllAt (set heap c client) objects
  set-AllAt heap c client [] h v = tt
  set-AllAt heap c client ((d, other) ∷ objects) h v = (
    get_elem?-set_ne heap client (λ same. absurd (ground arith)) ∙ v.0,
    v.1,
    set-AllAt heap c client objects h.1 v.2,
  )

  pub moved-AllDistinct :
      (c : ℕ) (front : List ℕ) (objects : List (ℕ × Client F))
      → IsAbsent c (indices objects)
      → AllDistinct front objects
      → AllDistinct (front ++ c ∷ []) objects
  moved-AllDistinct c front [] h v = tt
  moved-AllDistinct c front ((d, other) ∷ objects) h v =
      let apart : (d == c) ≡ false = ground arith in
      (append-IsAbsent d c front v.0 apart, v.1, moved-AllDistinct c front objects h.1 v.2)

  pub stop_client-idle :
      (s : Server F) (c : ℕ) (client : Client F)
      → get_elem? s.heap c ≡ some client
      → client.running ≡ false
      → stop_client s c ≡ some (record s { heap = set s.heap c (Tcp.stop client) })
  unfolding stop_client stop_object
  stop_client-idle s c client there halted = rw there (simp halted refl)

  pub stop_client-running :
      (s : Server F) (c : ℕ) (client : Client F) (front back : List ℕ)
      → get_elem? s.heap c ≡ some client
      → client.running ≡ true
      → is_closed client.conn ≡ false
      → IsAbsent c front
      → s.clients ≡ front ++ c ∷ back
      → stop_client s c
        ≡ some (record s {
          heap = set s.heap c (Tcp.stop client);
          clients = front ++ back;
          active_clients_count = s.active_clients_count -ℤ pos 1;
        })
  unfolding stop_client stop_object remove_client
  stop_client-running s c client front back there runs open_conn absent listed =
      let gone : remove_index c s.clients ≡ some (front ++ back) =
        ap (remove_index c) listed ∙ remove_index-append c front back absent in
      rw there (simp (runs, open_conn, gone) refl)
