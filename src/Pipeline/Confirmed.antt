-- ===== src/Pipeline/Confirmed.antt =====
-- The confirmed words of all packages that run through the pipeline, one after the other.
use live_translation.Common.{◌≡◌, refl, List, [], ◌∷◌, Option, none, some}
use live_translation.Common.Int.{ℤ}
use live_translation.Common.Float.{Floats, IsOrdered}
use live_translation.Data.{AudioData, Outcome, passed, exited, raised, Word, TextSegment}
use live_translation.ConfirmWords.{
  ConfirmWords, TextTables, words_of, confirm_segments, confirm_fields,
}
use live_translation.ConfirmWords
use live_translation.ConfirmWords.Invariant.{IsClean, execute-IsClean}
use live_translation.Pipeline.{
  State, Stateless, Progress, ◌▷◌, create_audio_buffer, limit_rate, convert_audio, detect_voice,
  transcribe, confirm, run,
}
use live_translation.Pipeline.Wiring.Words.{confirm_all-total}

module _ {A : Type 0} where
  -- What the modules keep, if it holds before each of them.
  ▷-Keeps :
      (P : State → Type 0) (r : Progress A) (next : State → AudioData ℤ A → Progress A)
      → P r.0
      → ((s : State) (d : AudioData ℤ A) → P s → P (next s d).0)
      → P (r ▷ next).0
  ▷-Keeps P (s, d, passed) next h step = step s d h
  ▷-Keeps P (s, d, exited m) next h step = h
  ▷-Keeps P (s, d, raised e) next h step = h

  -- A package that passed holds the words that are confirmed by then.
  abbrev HoldsConfirmed : ConfirmWords ℤ → AudioData ℤ A → Outcome → Type 0
  HoldsConfirmed w d passed = d.confirmed_words ≡ some w.confirmed
  HoldsConfirmed w d (exited m) = Unit {0}
  HoldsConfirmed w d (raised e) = Unit {0}

  ▷-HoldsConfirmed :
      (r : Progress A) (next : State → AudioData ℤ A → Progress A)
      → ((s : State) (d : AudioData ℤ A)
          → (let q = next s d in HoldsConfirmed q.0.confirm_words q.1 q.2))
      → (let q = r ▷ next in HoldsConfirmed q.0.confirm_words q.1 q.2)
  ▷-HoldsConfirmed (s, d, passed) next step = step s d
  ▷-HoldsConfirmed (s, d, exited m) next step = tt
  ▷-HoldsConfirmed (s, d, raised e) next step = tt

module _ {A T : Type 0} (o : Floats ℤ) (t : TextTables ℤ) (m : Stateless A T) where
  confirm_segments-HoldsConfirmed :
      (s : ConfirmWords ℤ) (d : AudioData ℤ A) (a b : ℤ) (words : List (Word ℤ))
      → (let q = confirm_segments o t s d a b words in HoldsConfirmed q.0 q.1 q.2)
  unfolding confirm_segments
  confirm_segments-HoldsConfirmed s d a b [] = refl
  confirm_segments-HoldsConfirmed s d a b (w ∷ ws) =
      let (r, e) = confirm_all-total o t m s (o.add a b) (w ∷ ws) in rw e refl

  confirm_fields-HoldsConfirmed :
      (s : ConfirmWords ℤ) (d : AudioData ℤ A) (segments : Option (List (TextSegment ℤ)))
      (a b : Option ℤ)
      → (let q = confirm_fields o t s d segments a b in HoldsConfirmed q.0 q.1 q.2)
  unfolding confirm_fields
  confirm_fields-HoldsConfirmed s d none a b = tt
  confirm_fields-HoldsConfirmed s d (some segments) none b = tt
  confirm_fields-HoldsConfirmed s d (some segments) (some a) none = tt
  confirm_fields-HoldsConfirmed s d (some segments) (some a) (some b) =
      confirm_segments-HoldsConfirmed s d a b (words_of o t segments)

  confirm-HoldsConfirmed :
      (s : State) (d : AudioData ℤ A)
      → (let q = confirm o t m s d in HoldsConfirmed q.0.confirm_words q.1 q.2)
  unfolding confirm ConfirmWords.execute
  confirm-HoldsConfirmed s d =
      confirm_fields-HoldsConfirmed s.confirm_words d d.transcribed_segments
        d.audio_buffer_start_after d.audio_buffer_time

  run-HoldsConfirmed :
      (now : ℤ) (s : State) (d : AudioData ℤ A)
      → (let q = run o t m now s d in HoldsConfirmed q.0.confirm_words q.1 q.2)
  unfolding run
  run-HoldsConfirmed now s d =
      ▷-HoldsConfirmed
        (create_audio_buffer o t m s d
          ▷ limit_rate o t m now
          ▷ convert_audio o t m
          ▷ detect_voice o t m
          ▷ transcribe o t m)
        (confirm o t m) confirm-HoldsConfirmed

  module _ (laws : IsOrdered o) where
    abbrev pub KeepsClean : State → Type 0
    KeepsClean s = IsClean o t laws s.confirm_words

    run-KeepsClean :
        (now : ℤ) (s : State) (d : AudioData ℤ A) → KeepsClean s → KeepsClean (run o t m now s d).0
    unfolding run create_audio_buffer limit_rate convert_audio detect_voice transcribe confirm
    run-KeepsClean now s d h =
        let buffered = create_audio_buffer o t m s d in
        let limited = buffered ▷ limit_rate o t m now in
        let converted = limited ▷ convert_audio o t m in
        let spoken = converted ▷ detect_voice o t m in
        let transcribed = spoken ▷ transcribe o t m in
        let h1 = ▷-Keeps KeepsClean buffered (limit_rate o t m now) h (λ s d h. h) in
        let h2 = ▷-Keeps KeepsClean limited (convert_audio o t m) h1 (λ s d h. h) in
        let h3 = ▷-Keeps KeepsClean converted (detect_voice o t m) h2 (λ s d h. h) in
        let h4 = ▷-Keeps KeepsClean spoken (transcribe o t m) h3 (λ s d h. h) in
        ▷-Keeps KeepsClean transcribed (confirm o t m) h4
          (λ s d h. execute-IsClean o t laws s.confirm_words d h)

    -- The packages with the times at which they arrive, each on the state that the one before left:
    -- the confirmed words are clean after each of them, and are in the package if it passed.
    abbrev pub AllClean : State → List (ℤ × AudioData ℤ A) → Type 0
    AllClean s [] = Unit {0}
    AllClean s ((now, d) ∷ packages) =
        let q = run o t m now s d in
        KeepsClean q.0 × HoldsConfirmed q.0.confirm_words q.1 q.2 × AllClean q.0 packages

    -- Whatever packages run through the pipeline, one after the other, and however each of them
    -- ends: behind each the confirmed words are in the order of their start times, have a
    -- probability of 0.2 or more each, and are at most `max_confirmed_words`, unless that is 0, and
    -- a package that passes all modules holds exactly these words. Conditions: it is so at the
    -- start, and comparisons of the floats that occur follow IEEE 754 for numbers.
    pub run-AllClean :
        (packages : List (ℤ × AudioData ℤ A)) (s : State) → KeepsClean s → AllClean s packages
    run-AllClean [] s h = tt
    run-AllClean ((now, d) ∷ packages) s h =
        let q = run o t m now s d in
        let h' = run-KeepsClean now s d h in
        (h', run-HoldsConfirmed now s d, run-AllClean packages q.0 h')
