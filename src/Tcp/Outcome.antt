-- ===== src/Tcp/Outcome.antt =====
-- How the loops of `Client` of TCPserver.py end when the peer goes away, or sends what is no text.
use live_translation.Common.{ℕ, ◌≡◌, refl, true, false, List, [], ◌∷◌, ◌++◌}
use live_translation.Common.Result.{err}
use live_translation.Common.Float.{Floats}
use live_translation.Ogg.Bytes.{Bytes, Error}
use live_translation.Ogg.Utf8.{decode}
use live_translation.Tcp.{
  Client, opened, arrives, Act, round, ended, crashed, Ciphers, ping_timeout, send, send_data,
  reset_ping, incoming, outgoing,
}
use live_translation.Tcp.Loops

module _ {F : Type 0} (o : Floats F) (k : Ciphers) where
  -- Rounds in which `recv` returns b"", as it does when the peer has closed, before the timeout.
  abbrev pub AllSilent : Client F → List (F × F) → Type 0
  AllSilent c [] = Unit {0}
  AllSilent c ((now, later) ∷ times) = (Loops.is_late o k c now ≡ false) × AllSilent c times

  abbrev pub silent_rounds : List (F × F) → List (Act F)
  silent_rounds [] = []
  silent_rounds ((now, later) ∷ times) = round now (arrives []) later ∷ silent_rounds times

  -- A peer that has closed the connection is not noticed: the loop of `_listen` goes round without
  -- any change to the client, until a round starts later than the ping timeout, which ends it.
  pub listen-silent :
      (c : Client F) (times : List (F × F)) (now later : F) (acts : List (Act F))
      → c.running ≡ true
      → AllSilent c times
      → Loops.is_late o k c now ≡ true
      → Loops.run_loop o k
          (Loops.listen_round o k)
          c
          (silent_rounds times ++ round now (arrives []) later ∷ acts)
        ≡ (ping_timeout c, ended, acts)
  unfolding Loops.run_loop Loops.act_on Loops.listen_round Loops.listen_input
  listen-silent c [] now later acts runs quiet late = simp (runs, late) refl
  listen-silent c ((t, u) ∷ times) now later acts runs quiet late =
      simp (runs, quiet.0) (listen-silent c times now later acts runs quiet.1 late)

  -- A client that sends bytes that are no UTF-8 text in place of the token: an exception that
  -- nothing catches ends its thread, and the client is left as it is, running and not taken off
  -- the server's list. Conditions: no encryption, and the bytes arrive in time.
  pub start-undecodable :
      (c : Client F) (t0 t1 now later : F) (head : ℕ) (tail : Bytes) (acts : List (Act F))
      (e : Error)
      → c.conn ≡ opened
      → c.running ≡ false
      → c.encryption ≡ 0
      → o.flt c.ping_timeout_time (o.sub now t1) ≡ false
      → decode (head ∷ tail) ≡ err e
      → let (c', verdict) =
          Loops.start o k c t0 t1 (round now (arrives (head ∷ tail)) later ∷ acts) in
        (verdict ≡ crashed) × (c'.running ≡ true) × (c'.conn ≡ opened) × (c'.told ≡ c.told)
  unfolding Loops.start Loops.authorize Loops.after_token Loops.validate_token Loops.run_loop
      Loops.act_on Loops.validate_round Loops.validate_input Loops.judge Loops.judge_text send
      send_data outgoing incoming reset_ping
  start-undecodable c t0 t1 now later head tail acts e there idle plain early bad =
      simp (there, idle, plain, early, bad) (refl, refl, refl, refl)
