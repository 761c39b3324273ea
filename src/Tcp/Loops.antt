-- ===== src/Tcp/Loops.antt =====
-- The loops of `Client` of TCPserver.py, and its `start`.
use live_translation.Common.{
  Bool, true, false, ◌||◌, not, List, [], ◌∷◌, map, Option, none, some, ◌==◌, take, drop,
  if◌then◌else◌,
}
use live_translation.Common.Result.{Result, ok, err}
use live_translation.Common.Float.{Floats}
use live_translation.Ogg.Bytes.{Bytes, Error, bytes_eq}
use live_translation.Ogg.Utf8.{Text, decode}
use live_translation.Event
use live_translation.Tcp.{
  Client, Connection, opened, broken, closed, connected, message, Input, arrives, times_out, fails,
  Act, round, calls_stop, breaks, Verdict, waiting, ended, crashed, returned, Ciphers, is_closed,
  ok_message, ping_message, tells, reset_ping, stop, ping_timeout, send, incoming, handle_ping,
}

-- A break leaves a connection that is closed alone.
abbrev pub broken_conn : Connection → Connection
broken_conn closed = closed
broken_conn opened = broken
broken_conn broken = broken

-- A round goes on, or ends the loop.
abbrev pub Round : Type 0 → Type 0
Round F = Client F × Option Verdict

-- What follows a round: the rest of the loop, or its end.
abbrev pub continued {ℓ} : {R : Type ℓ} → Option Verdict → R → (Verdict → R) → R
continued none rest over = rest
continued (some verdict) rest over = over verdict

module _ {F : Type 0} (o : Floats F) (k : Ciphers) where
  -- `current_time - self._last_ping > self._ping_timeout_time`
  abbrev pub is_late : Client F → F → Bool
  is_late c now = o.flt c.ping_timeout_time (o.sub now c.last_ping)

  unfoldable pub act_on : (Client F → F → Input → F → Round F) → Client F → Act F → Round F
  act_on body c (round now input later) = body c now input later
  act_on body c calls_stop = (stop c, none)
  act_on body c breaks = (record c { conn = broken_conn c.conn }, none)

  -- `while self._running`, with the body of the loop: the client, how the loop ended, and the acts
  -- that are left.
  unfoldable pub run_loop :
      (Client F → F → Input → F → Round F)
      → Client F
      → List (Act F)
      → Client F × Verdict × List (Act F)
  unfolding act_on
  run_loop body c [] = (c, if c.running then waiting else ended, [])
  run_loop body c (act ∷ acts) =
      let (c', outcome) = act_on body c act in
      let rest = run_loop body c' acts in
      if not c.running
      then (c, ended, act ∷ acts)
      else continued outcome rest (λ verdict. (c', verdict, acts))

  -- The token as it was decoded.
  unfoldable pub judge_text : Client F → Result Error Text → Round F
  judge_text c (ok text) = (c, some (returned (bytes_eq text c.secret_token)))
  judge_text c (err e) = (c, some crashed)

  unfoldable pub judge : Client F → Option Bytes → Round F
  unfolding judge_text
  judge c (some plain) = judge_text c (decode plain)
  judge c none = (c, some crashed)

  unfoldable pub validate_input : Client F → Input → Round F
  unfolding judge
  validate_input c (arrives []) = (c, none)
  validate_input c (arrives (b ∷ bs)) = judge c (incoming k c (b ∷ bs))
  validate_input c times_out = (ping_timeout c, some (returned false))
  validate_input c fails = (stop c, some (returned false))

  unfoldable pub validate_round : Client F → F → Input → F → Round F
  unfolding validate_input
  validate_round c now input later =
      if is_late c now then (ping_timeout c, some (returned false)) else validate_input c input

  unfoldable pub validate_token : Client F → List (Act F) → Client F × Verdict × List (Act F)
  unfolding run_loop validate_round
  validate_token c acts =
      if is_closed c.conn then (c, returned false, acts) else run_loop validate_round c acts

  -- The client's key and init vector, or what the private key raised.
  unfoldable pub take_keys : Client F → Option Bytes → Round F
  take_keys c (some init_and_key) = (
    record c {
      client_initkey = some (take 16 init_and_key);
      client_key = some (drop 16 init_and_key);
    },
    some (returned true),
  )
  take_keys c none = (stop c, some (returned false))

  unfoldable pub clientkey_input : Client F → Input → Round F
  unfolding take_keys
  clientkey_input c (arrives []) = (stop c, some (returned false))
  clientkey_input c (arrives (b ∷ bs)) = take_keys c (k.rsa_decrypt (b ∷ bs))
  clientkey_input c times_out = (ping_timeout c, some (returned false))
  clientkey_input c fails = (stop c, some (returned false))

  unfoldable pub clientkey_round : Client F → F → Input → F → Round F
  unfolding clientkey_input
  clientkey_round c now input later =
      if is_late c now then (ping_timeout c, some (returned false)) else clientkey_input c input

  unfoldable pub listen_for_clientkey : Client F → List (Act F) → Client F × Verdict × List (Act F)
  unfolding run_loop clientkey_round
  listen_for_clientkey c acts =
      if is_closed c.conn || not c.has_privatekey
      then (c, returned false, acts)
      else run_loop clientkey_round c acts

  -- A message, or a ping.
  unfoldable pub take_message : Client F → Option Bytes → F → Round F
  take_message c none later = (c, some crashed)
  take_message c (some plain) later =
      if bytes_eq plain ping_message
      then (handle_ping k c later, none)
      else (tells c (map (λ cb. message cb plain) (Event.emit c.message_callbacks)), none)

  unfoldable pub listen_input : Client F → Input → F → Round F
  unfolding take_message
  listen_input c (arrives []) later = (c, none)
  listen_input c (arrives (b ∷ bs)) later = take_message c (incoming k c (b ∷ bs)) later
  listen_input c times_out later = (ping_timeout c, none)
  listen_input c fails later = (stop c, none)

  unfoldable pub listen_round : Client F → F → Input → F → Round F
  unfolding listen_input
  listen_round c now input later =
      if is_late c now then (ping_timeout c, some ended) else listen_input c input later

  unfoldable pub listen : Client F → List (Act F) → Client F × Verdict × List (Act F)
  unfolding run_loop listen_round
  listen c acts = if is_closed c.conn then (c, ended, acts) else run_loop listen_round c acts

  -- The end of `start`, behind the check of the token.
  unfoldable pub after_token : Client F × Verdict × List (Act F) → Client F × Verdict
  unfolding listen
  after_token (c, returned true, acts) =
      let (c', verdict, left) =
        listen (tells c (map connected (Event.emit c.connected_callbacks))) acts in
      (c', verdict)
  after_token (c, returned false, acts) = (stop c, ended)
  after_token (c, ended, acts) = (stop c, ended)
  after_token (c, waiting, acts) = (c, waiting)
  after_token (c, crashed, acts) = (c, crashed)

  unfoldable pub authorize : Client F → F → List (Act F) → Client F × Verdict
  unfolding after_token validate_token
  authorize c now acts = after_token (validate_token (reset_ping (send k c ok_message) now) acts)

  unfoldable pub after_key : F → Client F × Verdict × List (Act F) → Client F × Verdict
  unfolding authorize
  after_key now (c, returned true, acts) = authorize c now acts
  after_key now (c, returned false, acts) = (c, ended)
  after_key now (c, ended, acts) = (c, ended)
  after_key now (c, waiting, acts) = (c, waiting)
  after_key now (c, crashed, acts) = (c, crashed)

  unfoldable pub send_publickey : Client F → Option Bytes → Client F
  send_publickey c none = c
  send_publickey c (some pem) = send k c pem

  -- `start`, with the clock at its two readings outside the loops.
  unfoldable pub start : Client F → F → F → List (Act F) → Client F × Verdict
  unfolding after_key listen_for_clientkey send_publickey
  start c now later acts =
      let c' = reset_ping (record c { running = true }) now in
      if is_closed c.conn || c.running
      then (c, ended)
      else if c.encryption == 0
      then authorize c' later acts
      else after_key later (listen_for_clientkey (send_publickey c' c.server_publickey) acts)
