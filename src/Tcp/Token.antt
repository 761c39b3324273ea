-- ===== src/Tcp/Token.antt =====
-- Who gets past the check of the token in TCPserver.py.
use live_translation.Common.{
  ℕ, ◌≡◌, refl, sym, ap, inl, inr, true, ◌||◌, not, List, [], ◌∷◌, ◌++◌, Option, none, some, arith,
  Bool-cases, Option-cases,
}
use live_translation.Common.Result.{ok, Result-cases}
use live_translation.Common.Float.{Floats}
use live_translation.Ogg.Bytes.{Bytes, bytes_eq}
use live_translation.Ogg.Utf8.{Text, decode}
use live_translation.Tcp.{
  Client, Input, arrives, times_out, fails, Act, round, calls_stop, breaks, returned, Ciphers,
  is_closed, incoming,
}
use live_translation.Tcp.Loops

-- Among the acts, data arrived that in plain text is the client's secret token.
pub record Presented {F : Type 0} (k : Ciphers) (c : Client F) (acts : List (Act F)) : Type 0 where
  pub before : List (Act F)
  pub after : List (Act F)
  pub now : F
  pub later : F
  pub payload : Bytes
  pub plain : Bytes
  pub text : Text
  pub received : acts ≡ before ++ round now (arrives payload) later ∷ after
  pub deciphered : incoming k c payload ≡ some plain
  pub decoded : decode plain ≡ ok text
  pub is_secret : bytes_eq text c.secret_token ≡ true

module _ {F : Type 0} (o : Floats F) (k : Ciphers) where
  -- The round that accepts the token.
  judge-accepts :
      (c c' : Client F) (plain : Option Bytes)
      → Loops.judge o k c plain ≡ (c', some (returned true))
      → (c' ≡ c)
        × (p : Bytes) × (text : Text) × (plain ≡ some p)
        × (decode p ≡ ok text)
        × (bytes_eq text c.secret_token ≡ true)
  unfolding Loops.judge Loops.judge_text
  judge-accepts c c' none e = absurd (ground arith)
  judge-accepts c c' (some p) e = elim (Result-cases (decode p)) [
    | inr (x, d) ↦ absurd (let e' = rw d at e in ground arith)
    | inl (text, d) ↦
        let e' = rw d at e in
        let same : c ≡ c' = ap (λ r. r.0) e' in (sym same, p, text, refl, d, ground arith)
  ]

  validate_input-accepts :
      (c c' : Client F) (input : Input)
      → Loops.validate_input o k c input ≡ (c', some (returned true))
      → (c' ≡ c)
        × (b : ℕ) × (bs : Bytes) × (input ≡ arrives (b ∷ bs))
        × (Loops.judge o k c (incoming k c (b ∷ bs)) ≡ (c', some (returned true)))
  unfolding Loops.validate_input
  validate_input-accepts c c' (arrives []) e = absurd (ground arith)
  validate_input-accepts c c' (arrives (b ∷ bs)) e =
      ((judge-accepts c c' (incoming k c (b ∷ bs)) e).0, b, bs, refl, e)
  validate_input-accepts c c' times_out e = absurd (ground arith)
  validate_input-accepts c c' fails e = absurd (ground arith)

  -- The acts in front do not matter.
  Presented-cons :
      (c : Client F) (act : Act F) (acts : List (Act F))
      → Presented k c acts
      → Presented k c (act ∷ acts)
  Presented-cons c act acts p = record {
    before = act ∷ p.before;
    after = p.after;
    now = p.now;
    later = p.later;
    payload = p.payload;
    plain = p.plain;
    text = p.text;
    received = ap (◌∷◌ act) p.received;
    deciphered = p.deciphered;
    decoded = p.decoded;
    is_secret = p.is_secret;
  }

  pub Presented-append :
      (c : Client F) (gone left : List (Act F)) → Presented k c left → Presented k c (gone ++ left)
  Presented-append c [] left p = p
  Presented-append c (act ∷ gone) left p =
      Presented-cons c act (gone ++ left) (Presented-append c gone left p)

  round-Presented :
      (c c' : Client F) (now later : F) (input : Input) (acts : List (Act F))
      → Loops.validate_input o k c input ≡ (c', some (returned true))
      → Presented k c' (round now input later ∷ acts)
  round-Presented c c' now later input acts e =
      let (same, b, bs, arrived, judged) = validate_input-accepts c c' input e in
      let (_, plain, text, deciphered, decoded, is_secret) =
        judge-accepts c c' (incoming k c (b ∷ bs)) judged in
      rw same (record {
        before = [];
        after = acts;
        now = now;
        later = later;
        payload = b ∷ bs;
        plain = plain;
        text = text;
        received = ap (λ i. round now i later ∷ acts) arrived;
        deciphered = deciphered;
        decoded = decoded;
        is_secret = is_secret;
      })

  run_loop-Presented :
      (c c' : Client F) (acts left : List (Act F))
      → Loops.run_loop o k (Loops.validate_round o k) c acts ≡ (c', returned true, left)
      → Presented k c' acts
  unfolding Loops.run_loop Loops.act_on Loops.validate_round
  run_loop-Presented c c' [] left e = elim (Bool-cases c.running) [
    | inl runs ↦ absurd (let e' = simp runs at e in ground arith)
    | inr halted ↦ absurd (let e' = simp halted at e in ground arith)
  ]
  run_loop-Presented c c' (act ∷ acts) left e = elim (Bool-cases c.running) [
    | inr halted ↦ absurd (let e' = simp halted at e in ground arith)
    | inl runs ↦ next (λ d. run_loop-Presented d c' acts left) act (simp runs at e)
  ]
    where
      next :
          ((d : Client F)
            → Loops.run_loop o k (Loops.validate_round o k) d acts ≡ (c', returned true, left)
            → Presented k c' acts)
          → (a : Act F)
          → Loops.continued
              (Loops.act_on o k (Loops.validate_round o k) c a).1
              (Loops.run_loop o k
                (Loops.validate_round o k)
                (Loops.act_on o k (Loops.validate_round o k) c a).0
                acts)
              (λ verdict. ((Loops.act_on o k (Loops.validate_round o k) c a).0, verdict, acts))
            ≡ (c', returned true, left)
          → Presented k c' (a ∷ acts)
      next again calls_stop f = Presented-cons c' calls_stop acts (again _ f)
      next again breaks f = Presented-cons c' breaks acts (again _ f)
      next again (round now input later) f = elim (Bool-cases (Loops.is_late o k c now)) [
        | inl late ↦ absurd (let f' = simp late at f in ground arith)
        | inr early ↦ elim (Option-cases (Loops.validate_input o k c input).1) [
          | inl more ↦
              Presented-cons c' (round now input later) acts (again _ (simp (early, more) at f))
          | inr (verdict, over) ↦
              let f' = simp (early, over) at f in
              let it : (Loops.validate_input o k c input) ≡ (c', some (returned true)) = cc in
              round-Presented c c' now later input acts it
        ]
      ]

  pub validate_token-Presented :
      (c c' : Client F) (acts left : List (Act F))
      → Loops.validate_token o k c acts ≡ (c', returned true, left)
      → Presented k c' acts
  unfolding Loops.validate_token
  validate_token-Presented c c' acts left e = elim (Bool-cases (is_closed c.conn)) [
    | inl gone ↦ absurd (let e' = rw gone at e in ground arith)
    | inr there ↦ run_loop-Presented c c' acts left (rw there at e)
  ]

  -- A loop leaves the acts that it has not consumed.
  run_loop-left :
      (body : Client F → F → Input → F → Loops.Round F) (c : Client F) (acts : List (Act F))
      → (gone : List (Act F)) × (acts ≡ gone ++ (Loops.run_loop o k body c acts).2)
  unfolding Loops.run_loop
  run_loop-left body c [] = ([], refl)
  run_loop-left body c (act ∷ acts) = elim (Bool-cases c.running) [
    | inr halted ↦ simp halted ([], refl)
    | inl runs ↦ elim (Option-cases (Loops.act_on o k body c act).1) [
      | inl more ↦
          let (gone, e) = run_loop-left body (Loops.act_on o k body c act).0 acts in
          simp (runs, more) (act ∷ gone, ap (◌∷◌ act) e)
      | inr (verdict, over) ↦ simp (runs, over) (act ∷ [], refl)
    ]
  ]

  pub listen_for_clientkey-left :
      (c : Client F) (acts : List (Act F))
      → (gone : List (Act F)) × (acts ≡ gone ++ (Loops.listen_for_clientkey o k c acts).2)
  unfolding Loops.listen_for_clientkey
  listen_for_clientkey-left c acts = elim (Bool-cases (is_closed c.conn || not c.has_privatekey)) [
    | inl gone ↦ rw gone ([], refl)
    | inr there ↦ rw there (run_loop-left (Loops.clientkey_round o k) c acts)
  ]
