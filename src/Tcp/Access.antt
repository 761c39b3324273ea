-- ===== src/Tcp/Access.antt =====
-- Nothing is told of a client of TCPserver.py that has not presented the token.
use live_translation.Common.{
  ℕ, ◌≡◌, refl, ◌⊎◌, inl, inr, Bool, true, false, ◌||◌, List, [], ◌∷◌, ◌++◌, map, ◌==◌, Bool-cases,
}
use live_translation.Common.Float.{Floats}
use live_translation.Ogg.Utf8.{Text}
use live_translation.Event
use live_translation.Tcp.{
  Client, Told, connected, disconnected, timeout, ping, message, removed, Act, Verdict, waiting,
  ended, crashed, returned, Ciphers, is_closed, ok_message, stop, reset_ping, send,
}
use live_translation.Tcp.Loops
use live_translation.Tcp.Keeps.{
  IsKept, send-Keeps, send_publickey-Keeps, validate_token-Keeps, listen_for_clientkey-Keeps,
}
use live_translation.Tcp.Token.{
  Presented, Presented-append, validate_token-Presented, listen_for_clientkey-left,
}

-- No callback was started that says that the client is connected, sent a message or a ping.
abbrev pub is_quiet : Told → Bool
is_quiet (connected cb) = false
is_quiet (message cb plain) = false
is_quiet (ping cb) = false
is_quiet (disconnected cb) = true
is_quiet (timeout cb) = true
is_quiet removed = true

abbrev pub AllQuiet : List Told → Type 0
AllQuiet [] = Unit {0}
AllQuiet (t ∷ ts) = (is_quiet t ≡ true) × AllQuiet ts

append-AllQuiet : (ts us : List Told) → AllQuiet ts → AllQuiet us → AllQuiet (ts ++ us)
append-AllQuiet [] us h g = g
append-AllQuiet (t ∷ ts) us h g = (h.0, append-AllQuiet ts us h.1 g)

map-AllQuiet :
    (f : ℕ → Told) (cbs : List ℕ) → ((cb : ℕ) → is_quiet (f cb) ≡ true) → AllQuiet (map f cbs)
map-AllQuiet f [] h = tt
map-AllQuiet f (cb ∷ cbs) h = (h cb, map-AllQuiet f cbs h)

module _ {F : Type 0} (secret : Text) (encryption : ℕ) where
  abbrev IsUnknown : Client F → Type 0
  IsUnknown c = AllQuiet c.told × ((c.secret_token ≡ secret) × (c.encryption ≡ encryption))

  stop-IsUnknown : (c : Client F) → IsUnknown c → IsUnknown (stop c)
  unfolding stop
  stop-IsUnknown c (quiet, same) = elim (Bool-cases c.running) [
    | inr halted ↦ simp halted (quiet, same)
    | inl runs ↦ elim (Bool-cases (is_closed c.conn)) [
      | inl gone ↦ simp (runs, gone) (quiet, same)
      | inr there ↦
          let cbs = Event.emit c.disconnected_callbacks in
          let news = append-AllQuiet c.told _ quiet (map-AllQuiet disconnected cbs (λ cb. refl)) in
          simp (runs, there) (append-AllQuiet _ (removed ∷ []) news (refl, tt), same)
    ]
  ]

  IsUnknown-IsKept : IsKept IsUnknown
  IsUnknown-IsKept = record {
    stops = stop-IsUnknown;
    times = λ c cbs p. (append-AllQuiet c.told _ p.0 (map-AllQuiet timeout cbs (λ cb. refl)), p.1);
    sends = λ c m p. p;
    resets = λ c now p. p;
    breaks = λ c p. p;
    takes_keys = λ c key initkey p. p;
  }

module _ {F : Type 0} (o : Floats F) (k : Ciphers) where
  -- The run got to a client object, with the secret and the setting of encryption of the first, to
  -- which the token was presented under the keys that it had taken, and goes on from there.
  pub record Authorized (secret : Text) (encryption : ℕ) (acts : List (Act F))
      (r : Client F × Verdict) : Type 0 where
    pub client : Client F
    pub left : List (Act F)
    pub presented : Presented k client acts
    pub same_secret : client.secret_token ≡ secret
    pub same_encryption : client.encryption ≡ encryption
    pub goes_on : r ≡ Loops.after_token o k (client, returned true, left)

  abbrev pub IsGuarded : Text → ℕ → List (Act F) → Client F × Verdict → Type 0
  IsGuarded secret encryption acts r = AllQuiet r.0.told ⊎ Authorized secret encryption acts r

  after_token-IsGuarded :
      (secret : Text) (n : ℕ) (c d : Client F) (verdict : Verdict) (acts left : List (Act F))
      → Loops.validate_token o k d acts ≡ (c, verdict, left)
      → IsUnknown secret n c
      → IsGuarded secret n acts (Loops.after_token o k (c, verdict, left))
  unfolding Loops.after_token
  after_token-IsGuarded secret n c d (returned true) acts left e p = inr (record {
    client = c;
    left = left;
    presented = validate_token-Presented o k d c acts left e;
    same_secret = p.1.0;
    same_encryption = p.1.1;
    goes_on = refl;
  })
  after_token-IsGuarded secret n c d (returned false) acts left e p =
      inl (stop-IsUnknown secret n c p).0
  after_token-IsGuarded secret n c d ended acts left e p = inl (stop-IsUnknown secret n c p).0
  after_token-IsGuarded secret n c d waiting acts left e p = inl p.0
  after_token-IsGuarded secret n c d crashed acts left e p = inl p.0

  authorize-IsGuarded :
      (secret : Text) (e : ℕ) (c : Client F) (now : F) (acts : List (Act F))
      → IsUnknown secret e c
      → IsGuarded secret e acts (Loops.authorize o k c now acts)
  unfolding Loops.authorize reset_ping
  authorize-IsGuarded secret e c now acts p =
      let d = reset_ping (send k c ok_message) now in
      let (c', verdict, left) = Loops.validate_token o k d acts in
      let sent = send-Keeps o k (IsUnknown secret e) (IsUnknown-IsKept secret e) c ok_message p in
      after_token-IsGuarded secret e c' d verdict acts left refl
        (validate_token-Keeps o k (IsUnknown secret e) (IsUnknown-IsKept secret e) d acts sent)

  after_key-IsGuarded :
      (secret : Text) (e : ℕ) (now : F) (c : Client F) (verdict : Verdict) (left : List (Act F))
      → IsUnknown secret e c
      → IsGuarded secret e left (Loops.after_key o k now (c, verdict, left))
  unfolding Loops.after_key
  after_key-IsGuarded secret e now c (returned true) left p =
      authorize-IsGuarded secret e c now left p
  after_key-IsGuarded secret e now c (returned false) left p = inl p.0
  after_key-IsGuarded secret e now c ended left p = inl p.0
  after_key-IsGuarded secret e now c waiting left p = inl p.0
  after_key-IsGuarded secret e now c crashed left p = inl p.0

  earlier-IsGuarded :
      (secret : Text) (n : ℕ) (gone left acts : List (Act F)) (r : Client F × Verdict)
      → acts ≡ gone ++ left
      → IsGuarded secret n left r
      → IsGuarded secret n acts r
  earlier-IsGuarded secret n gone left acts r e (inl quiet) = inl quiet
  earlier-IsGuarded secret n gone left acts r e (inr a) = inr (record {
    client = a.client;
    left = a.left;
    presented = rw e (Presented-append o k a.client gone left a.presented);
    same_secret = a.same_secret;
    same_encryption = a.same_encryption;
    goes_on = a.goes_on;
  })

  -- Whatever the peer and the network do while a client's `start` runs, and whenever other threads
  -- stop the client between two rounds of its loops: no callback is started that says that the
  -- client is connected, sent a message or a ping, unless data arrived that in plain text decodes
  -- to the secret token. The plain text is the data if the client is not encrypted, and otherwise
  -- what they decrypt to under the keys of the client object with which the run then goes on to
  -- start those callbacks. Condition: no such callback was started before.
  pub start-IsGuarded :
      (c : Client F) (now later : F) (acts : List (Act F))
      → AllQuiet c.told
      → IsGuarded c.secret_token c.encryption acts (Loops.start o k c now later acts)
  unfolding Loops.start reset_ping
  start-IsGuarded c now later acts quiet = elim (Bool-cases (is_closed c.conn || c.running)) [
    | inl idle ↦ rw idle (inl quiet)
    | inr fresh ↦
        let secret = c.secret_token in
        let e = c.encryption in
        let d = reset_ping (record c { running = true }) now in
        let p : IsUnknown secret e d = (quiet, (refl, refl)) in
        elim (Bool-cases (c.encryption == 0)) [
          | inl plain ↦ rw (fresh, plain) (authorize-IsGuarded secret e d later acts p)
          | inr hidden ↦
              let v = IsUnknown-IsKept secret e in
              let d' = Loops.send_publickey o k d c.server_publickey in
              let q = send_publickey-Keeps o k (IsUnknown secret e) v d c.server_publickey p in
              let r = listen_for_clientkey-Keeps o k (IsUnknown secret e) v d' acts q in
              let (gone, split) = listen_for_clientkey-left o k d' acts in
              let (c', verdict, left) = Loops.listen_for_clientkey o k d' acts in
              rw (fresh, hidden)
                (earlier-IsGuarded secret e gone left acts
                  (Loops.after_key o k later (c', verdict, left)) split
                  (after_key-IsGuarded secret e later c' verdict left r))
        ]
  ]
