-- ===== src/Tcp/Removal.antt =====
-- `Client` of TCPserver.py leaves the server's list of clients when its connection goes, and only
-- then.
use live_translation.Common.{
  ℕ, ◌+◌, ◌≡◌, refl, sym, ◌∙◌, Bool, true, false, List, [], ◌∷◌, ◌++◌, map, arith, Bool-cases, inl,
  inr, if◌then◌else◌,
}
use live_translation.Common.Float.{Floats}
use live_translation.Event
use live_translation.Tcp.{
  Client, Connection, opened, broken, closed, Told, connected, disconnected, timeout, ping, message,
  removed, Act, Ciphers, is_closed, tells, stop,
}
use live_translation.Tcp.Loops
use live_translation.Tcp.Keeps.After.{IsKeptAfter, start-Keeps}

abbrev pub is_removal : Told → Bool
is_removal removed = true
is_removal (connected cb) = false
is_removal (disconnected cb) = false
is_removal (timeout cb) = false
is_removal (ping cb) = false
is_removal (message cb plain) = false

-- How often the client is taken off the server's list.
abbrev pub removals : List Told → ℕ
removals [] = 0
removals (t ∷ ts) = let later = removals ts in if is_removal t then later + 1 else later

-- How often it should have been.
abbrev pub due : Connection → ℕ
due closed = 1
due opened = 0
due broken = 0

removals-append : (ts us : List Told) → removals (ts ++ us) ≡ removals ts + removals us
removals-append [] us = omega arith
removals-append (t ∷ ts) us = ground (arith, removals-append ts us)

removals-map :
    (f : ℕ → Told) (cbs : List ℕ)
    → ((cb : ℕ) → is_removal (f cb) ≡ false)
    → removals (map f cbs) ≡ 0
removals-map f [] h = refl
removals-map f (cb ∷ cbs) h = rw (h cb) (removals-map f cbs h)

due-broken_conn : (conn : Connection) → due (Loops.broken_conn conn) ≡ due conn
due-broken_conn closed = refl
due-broken_conn opened = refl
due-broken_conn broken = refl

due-open : (conn : Connection) → is_closed conn ≡ false → due conn ≡ 0
due-open closed h = ground arith
due-open opened h = refl
due-open broken h = refl

module _ {F : Type 0} where
  -- The client was taken off the list once if its connection is closed, and never if it is not.
  abbrev pub IsTracked : Client F → Type 0
  IsTracked c = removals c.told ≡ due c.conn

  tells-IsTracked :
      (c : Client F) (f : ℕ → Told) (cbs : List ℕ)
      → ((cb : ℕ) → is_removal (f cb) ≡ false)
      → IsTracked c
      → IsTracked (tells c (map f cbs))
  tells-IsTracked c f cbs h p =
      omega (arith, p, removals-append c.told (map f cbs), removals-map f cbs h)

  stop-IsTracked : (c : Client F) → IsTracked c → IsTracked (stop c)
  unfolding stop
  stop-IsTracked c p = elim (Bool-cases c.running) [
    | inr halted ↦ simp halted p
    | inl runs ↦ elim (Bool-cases (is_closed c.conn)) [
      | inl gone ↦ simp (runs, gone) p
      | inr there ↦
          let cbs = Event.emit c.disconnected_callbacks in
          let news = map disconnected cbs in
          let sum : removals (c.told ++ news ++ removed ∷ []) ≡ 1 = omega (
            arith,
            p,
            due-open c.conn there,
            removals-append c.told news,
            removals-append (c.told ++ news) (removed ∷ []),
            removals-map disconnected cbs (λ cb. refl),
          ) in
          simp (runs, there) sum
    ]
  ]

  IsTracked-IsKeptAfter : IsKeptAfter IsTracked
  IsTracked-IsKeptAfter = record {
    before = record {
      stops = stop-IsTracked;
      times = λ c cbs p. tells-IsTracked c timeout cbs (λ cb. refl) p;
      sends = λ c m p. p;
      resets = λ c now p. p;
      breaks = λ c p. p ∙ sym (due-broken_conn c.conn);
      takes_keys = λ c key initkey p. p;
    };
    connects = λ c cbs p. tells-IsTracked c connected cbs (λ cb. refl) p;
    pings = λ c cbs p. tells-IsTracked c ping cbs (λ cb. refl) p;
    messages = λ c plain cbs p. tells-IsTracked c (λ cb. message cb plain) cbs (λ cb. refl) p;
  }

  -- Whatever the peer and the network do while a client's `start` runs, and whenever other threads
  -- stop it between two rounds of its loops: if its connection is closed in the end, the client was
  -- taken off the server's list exactly once, and otherwise it was not taken off. Conditions: this
  -- held before, and no two calls of `stop` overlap, so that each call runs as a whole.
  pub start-IsTracked :
      (o : Floats F) (k : Ciphers) (c : Client F) (now later : F) (acts : List (Act F))
      → IsTracked c
      → IsTracked (Loops.start o k c now later acts).0
  start-IsTracked o k c now later acts p =
      start-Keeps o k IsTracked IsTracked-IsKeptAfter c now later acts p p

  stop-halted : (c : Client F) → (stop c).running ≡ false
  unfolding stop
  stop-halted c = elim (Bool-cases c.running) [
    | inr halted ↦ simp halted refl
    | inl runs ↦ elim (Bool-cases (is_closed c.conn)) [
      | inl gone ↦ simp (runs, gone) refl
      | inr there ↦ simp (runs, there) refl
    ]
  ]

  -- A second call of `stop` changes nothing: no callback is started again, and the client is not
  -- taken off the server's list again.
  stop-stop : (c : Client F) → stop (stop c) ≡ stop c
  unfolding stop
  stop-stop c = simp (stop-halted c) refl
