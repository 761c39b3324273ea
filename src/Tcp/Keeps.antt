-- ===== src/Tcp/Keeps.antt =====
-- What every step of `Client` of TCPserver.py keeps, if the changes that steps are made of keep it.
pub mod After
use live_translation.Common.{
  ℕ, true, false, ◌||◌, not, List, [], ◌∷◌, ◌++◌, map, Option, none, some, ◌==◌, take, drop,
  Bool-cases, Option-cases, inl, inr,
}
use live_translation.Common.Result.{Result-cases}
use live_translation.Common.Float.{Floats}
use live_translation.Ogg.Bytes.{Bytes, bytes_eq}
use live_translation.Ogg.Utf8.{decode}
use live_translation.Tcp.{
  Client, Connection, opened, broken, closed, connected, timeout, ping, message, Input, arrives,
  times_out, fails, Act, round, calls_stop, breaks, Verdict, waiting, ended, crashed, returned,
  Ciphers, is_closed, ok_message, pong_message, ping_message, tells, reset_ping, stop, ping_timeout,
  send, send_data, outgoing, incoming, handle_ping,
}
use live_translation.Tcp.Loops

-- Kept by each change that the code makes before the token is accepted.
pub record IsKept {F : Type 0} (P : Client F → Type 0) : Type 0 where
  pub stops : (c : Client F) → P c → P (stop c)
  pub times : (c : Client F) (cbs : List ℕ) → P c → P (tells c (map timeout cbs))
  pub sends : (c : Client F) (m : Bytes) → P c → P (record c { sent = c.sent ++ m ∷ [] })
  pub resets : (c : Client F) (now : F) → P c → P (record c { last_ping = now })
  pub breaks : (c : Client F) → P c → P (record c { conn = Loops.broken_conn c.conn })
  pub takes_keys :
      (c : Client F) (key initkey : Bytes)
      → P c
      → P (record c { client_initkey = some initkey; client_key = some key })

module _ {F : Type 0} (o : Floats F) (k : Ciphers) (P : Client F → Type 0) where
  abbrev pub Keeps : (Client F → F → Input → F → Loops.Round F) → Type 0
  Keeps body =
      (c : Client F) (now : F) (input : Input) (later : F) → P c → P (body c now input later).0

  module _ (v : IsKept P) where
    send_data-Keeps :
        (c : Client F) (conn : Connection) (m : Option Bytes) → P c → P (send_data c conn m)
    unfolding send_data
    send_data-Keeps c opened (some m) p = v.sends c m p
    send_data-Keeps c opened none p = v.stops c p
    send_data-Keeps c closed m p = v.stops c p
    send_data-Keeps c broken m p = v.stops c p

    pub send-Keeps : (c : Client F) (m : Bytes) → P c → P (send k c m)
    unfolding send
    send-Keeps c m p = send_data-Keeps c c.conn (outgoing k c m) p

    pub ping_timeout-Keeps : (c : Client F) → P c → P (ping_timeout c)
    unfolding ping_timeout
    ping_timeout-Keeps c p = v.stops _ (v.times c _ p)

    act_on-Keeps :
        (body : Client F → F → Input → F → Loops.Round F)
        → Keeps body
        → (c : Client F) (act : Act F) → P c
        → P (Loops.act_on o k body c act).0
    unfolding Loops.act_on
    act_on-Keeps body each c (round now input later) p = each c now input later p
    act_on-Keeps body each c calls_stop p = v.stops c p
    act_on-Keeps body each c breaks p = v.breaks c p

    pub run_loop-Keeps :
        (body : Client F → F → Input → F → Loops.Round F)
        → Keeps body
        → (c : Client F) (acts : List (Act F)) → P c
        → P (Loops.run_loop o k body c acts).0
    unfolding Loops.run_loop
    run_loop-Keeps body each c [] p = p
    run_loop-Keeps body each c (act ∷ acts) p = elim (Bool-cases c.running) [
      | inr halted ↦ simp halted p
      | inl runs ↦
          let p' = act_on-Keeps body each c act p in
          elim (Option-cases (Loops.act_on o k body c act).1) [
            | inl more ↦
                simp (runs, more) (run_loop-Keeps body each (Loops.act_on o k body c act).0 acts p')
            | inr (verdict, over) ↦ simp (runs, over) p'
          ]
    ]

    judge-Keeps : (c : Client F) (plain : Option Bytes) → P c → P (Loops.judge o k c plain).0
    unfolding Loops.judge
    judge-Keeps c none p = p
    judge-Keeps c (some plain) p = elim (Result-cases (decode plain)) [
      | inl (text, e) ↦ rw e p
      | inr (x, e) ↦ rw e p
    ]

    validate_input-Keeps :
        (c : Client F) (input : Input) → P c → P (Loops.validate_input o k c input).0
    unfolding Loops.validate_input
    validate_input-Keeps c (arrives []) p = p
    validate_input-Keeps c (arrives (b ∷ bs)) p = judge-Keeps c (incoming k c (b ∷ bs)) p
    validate_input-Keeps c times_out p = ping_timeout-Keeps c p
    validate_input-Keeps c fails p = v.stops c p

    validate_round-Keeps : Keeps (Loops.validate_round o k)
    unfolding Loops.validate_round
    validate_round-Keeps c now input later p = elim (Bool-cases (Loops.is_late o k c now)) [
      | inl late ↦ rw late (ping_timeout-Keeps c p)
      | inr early ↦ rw early (validate_input-Keeps c input p)
    ]

    pub validate_token-Keeps :
        (c : Client F) (acts : List (Act F)) → P c → P (Loops.validate_token o k c acts).0
    unfolding Loops.validate_token
    validate_token-Keeps c acts p = elim (Bool-cases (is_closed c.conn)) [
      | inl gone ↦ rw gone p
      | inr there ↦ rw there (run_loop-Keeps _ validate_round-Keeps c acts p)
    ]

    clientkey_input-Keeps :
        (c : Client F) (input : Input) → P c → P (Loops.clientkey_input o k c input).0
    unfolding Loops.clientkey_input Loops.take_keys
    clientkey_input-Keeps c (arrives []) p = v.stops c p
    clientkey_input-Keeps c (arrives (b ∷ bs)) p = elim (Option-cases (k.rsa_decrypt (b ∷ bs))) [
      | inl e ↦ rw e (v.stops c p)
      | inr (keys, e) ↦ rw e (v.takes_keys c (drop 16 keys) (take 16 keys) p)
    ]
    clientkey_input-Keeps c times_out p = ping_timeout-Keeps c p
    clientkey_input-Keeps c fails p = v.stops c p

    clientkey_round-Keeps : Keeps (Loops.clientkey_round o k)
    unfolding Loops.clientkey_round
    clientkey_round-Keeps c now input later p = elim (Bool-cases (Loops.is_late o k c now)) [
      | inl late ↦ rw late (ping_timeout-Keeps c p)
      | inr early ↦ rw early (clientkey_input-Keeps c input p)
    ]

    pub listen_for_clientkey-Keeps :
        (c : Client F) (acts : List (Act F)) → P c → P (Loops.listen_for_clientkey o k c acts).0
    unfolding Loops.listen_for_clientkey
    listen_for_clientkey-Keeps c acts p =
        elim (Bool-cases (is_closed c.conn || not c.has_privatekey)) [
          | inl gone ↦ rw gone p
          | inr there ↦ rw there (run_loop-Keeps _ clientkey_round-Keeps c acts p)
        ]

    pub send_publickey-Keeps :
        (c : Client F) (pem : Option Bytes) → P c → P (Loops.send_publickey o k c pem)
    unfolding Loops.send_publickey
    send_publickey-Keeps c none p = p
    send_publickey-Keeps c (some pem) p = send-Keeps c pem p
