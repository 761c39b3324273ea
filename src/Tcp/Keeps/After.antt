-- ===== src/Tcp/Keeps/After.antt =====
-- What the steps of `start` of TCPserver.py keep, those behind the check of the token included.
use live_translation.Common.{
  ℕ, true, false, ◌||◌, List, [], ◌∷◌, map, Option, none, some, ◌==◌, Bool-cases, inl, inr,
}
use live_translation.Common.Float.{Floats}
use live_translation.Ogg.Bytes.{Bytes, bytes_eq}
use live_translation.Tcp.{
  Client, connected, ping, message, Input, arrives, times_out, fails, Act, Verdict, waiting, ended,
  crashed, returned, Ciphers, is_closed, ok_message, pong_message, ping_message, tells, reset_ping,
  send, incoming, handle_ping,
}
use live_translation.Tcp.Loops
use live_translation.Tcp.Keeps.{
  IsKept, Keeps, send-Keeps, ping_timeout-Keeps, run_loop-Keeps, validate_token-Keeps,
  listen_for_clientkey-Keeps, send_publickey-Keeps,
}

-- Kept by each change that the code makes behind that, too.
pub record IsKeptAfter {F : Type 0} (P : Client F → Type 0) : Type 0 where
  pub before : IsKept P
  pub connects : (c : Client F) (cbs : List ℕ) → P c → P (tells c (map connected cbs))
  pub pings : (c : Client F) (cbs : List ℕ) → P c → P (tells c (map ping cbs))
  pub messages :
      (c : Client F) (plain : Bytes) (cbs : List ℕ)
      → P c
      → P (tells c (map (λ cb. message cb plain) cbs))

module _ {F : Type 0} (o : Floats F) (k : Ciphers) (P : Client F → Type 0) where
  module _ (w : IsKeptAfter P) where
    handle_ping-Keeps : (c : Client F) (now : F) → P c → P (handle_ping k c now)
    unfolding handle_ping
    handle_ping-Keeps c now p =
        send-Keeps o k P w.before _ pong_message (w.pings _ _ (w.before.resets c now p))

    take_message-Keeps :
        (c : Client F) (plain : Option Bytes) (later : F)
        → P c
        → P (Loops.take_message o k c plain later).0
    unfolding Loops.take_message
    take_message-Keeps c none later p = p
    take_message-Keeps c (some plain) later p = elim (Bool-cases (bytes_eq plain ping_message)) [
      | inl is_ping ↦ rw is_ping (handle_ping-Keeps c later p)
      | inr other ↦ rw other (w.messages c plain _ p)
    ]

    listen_input-Keeps :
        (c : Client F) (input : Input) (later : F)
        → P c
        → P (Loops.listen_input o k c input later).0
    unfolding Loops.listen_input
    listen_input-Keeps c (arrives []) later p = p
    listen_input-Keeps c (arrives (b ∷ bs)) later p =
        take_message-Keeps c (incoming k c (b ∷ bs)) later p
    listen_input-Keeps c times_out later p = ping_timeout-Keeps o k P w.before c p
    listen_input-Keeps c fails later p = w.before.stops c p

    listen_round-Keeps : Keeps o k P (Loops.listen_round o k)
    unfolding Loops.listen_round
    listen_round-Keeps c now input later p = elim (Bool-cases (Loops.is_late o k c now)) [
      | inl late ↦ rw late (ping_timeout-Keeps o k P w.before c p)
      | inr early ↦ rw early (listen_input-Keeps c input later p)
    ]

    pub listen-Keeps : (c : Client F) (acts : List (Act F)) → P c → P (Loops.listen o k c acts).0
    unfolding Loops.listen
    listen-Keeps c acts p = elim (Bool-cases (is_closed c.conn)) [
      | inl gone ↦ rw gone p
      | inr there ↦ rw there (run_loop-Keeps o k P w.before _ listen_round-Keeps c acts p)
    ]

    after_token-Keeps :
        (c : Client F) (verdict : Verdict) (acts : List (Act F))
        → P c
        → P (Loops.after_token o k (c, verdict, acts)).0
    unfolding Loops.after_token
    after_token-Keeps c (returned true) acts p = listen-Keeps _ acts (w.connects c _ p)
    after_token-Keeps c (returned false) acts p = w.before.stops c p
    after_token-Keeps c ended acts p = w.before.stops c p
    after_token-Keeps c waiting acts p = p
    after_token-Keeps c crashed acts p = p

    pub authorize-Keeps :
        (c : Client F) (now : F) (acts : List (Act F)) → P c → P (Loops.authorize o k c now acts).0
    unfolding Loops.authorize reset_ping
    authorize-Keeps c now acts p =
        let c' = reset_ping (send k c ok_message) now in
        let (c'', verdict, left) = Loops.validate_token o k c' acts in
        after_token-Keeps c'' verdict left (
          validate_token-Keeps o k P w.before c' acts
            (w.before.resets _ now (send-Keeps o k P w.before c ok_message p)))

    after_key-Keeps :
        (now : F) (c : Client F) (verdict : Verdict) (acts : List (Act F))
        → P c
        → P (Loops.after_key o k now (c, verdict, acts)).0
    unfolding Loops.after_key
    after_key-Keeps now c (returned true) acts p = authorize-Keeps c now acts p
    after_key-Keeps now c (returned false) acts p = p
    after_key-Keeps now c ended acts p = p
    after_key-Keeps now c waiting acts p = p
    after_key-Keeps now c crashed acts p = p

    -- `start` sets `running`; whatever it does behind that keeps the property.
    pub start-Keeps :
        (c : Client F) (now later : F) (acts : List (Act F))
        → P c
        → P (record c { running = true })
        → P (Loops.start o k c now later acts).0
    unfolding Loops.start reset_ping
    start-Keeps c now later acts p q = elim (Bool-cases (is_closed c.conn || c.running)) [
      | inl idle ↦ rw idle p
      | inr fresh ↦
          let r = w.before.resets _ now q in
          elim (Bool-cases (c.encryption == 0)) [
            | inl plain ↦ rw (fresh, plain) (authorize-Keeps _ later acts r)
            | inr secret ↦
                let c' = reset_ping (record c { running = true }) now in
                let (c'', verdict, left) =
                  Loops.listen_for_clientkey o k (Loops.send_publickey o k c' c.server_publickey)
                    acts in
                rw (fresh, secret)
                  (after_key-Keeps later c'' verdict left (
                    listen_for_clientkey-Keeps o k P w.before _ acts
                      (send_publickey-Keeps o k P w.before c' c.server_publickey r)))
          ]
    ]
