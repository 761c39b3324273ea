-- ===== src/Evaluation/Delay/Unmatched.antt =====
-- Which words of the transcript are left over by the loop that removes matched words.
use live_translation.Common.{
  ◌+◌, ◌≤◌, ◌≡◌, refl, sym, ap, ◌∙◌, Bool, true, false, ◌||◌, not, Option, none, some, List, [],
  ◌∷◌, ◌++◌, map, filter, length, length-append, length-map, arith,
}
use live_translation.Common.Result.{ok}
use live_translation.Common.Float.{Floats}
use live_translation.Data.{Word, AudioData}
use live_translation.ConfirmWords.{TextTables}
use live_translation.Evaluation.Delay.{
  LivePackage, Delays, is_found, remove_each, add_delays, confirmed_round, words_round,
  package_round, delays_of,
}
use live_translation.Evaluation.Delay.Removal.{
  IsEquality, length-filter-not, filter-filter, is_found-word_eq, remove_each-filter,
}

filter_none {ℓ} : {A : Type ℓ} (xs : List A) → filter (λ x. true) xs ≡ xs
filter_none [] = refl
filter_none (x ∷ xs) = ap (◌∷◌ x) (filter_none xs)

abbrev pub AreKnown : {F : Type 0} → Option F → Option F → Type 0
AreKnown (some start_after) (some buffer_time) = Unit {0}
AreKnown _ _ = ⊥

module _ {F A : Type 0} where
  abbrev pub HasTimes : Option (AudioData F A) → Type 0
  HasTimes none = Unit {0}
  HasTimes (some d) = AreKnown d.audio_buffer_start_after d.audio_buffer_time

  -- The packages with data know when their audio buffer began and how long it is.
  abbrev pub AreTimed : List (LivePackage F A) → Type 0
  AreTimed [] = Unit {0}
  AreTimed (live_dp ∷ live_dps) = HasTimes live_dp.contents × AreTimed live_dps

module _ {F : Type 0} (o : Floats F) (t : TextTables F) (offset : F) where
  abbrev pub is_among : Option (List (Word F)) → Word F → Bool
  is_among none w = false
  is_among (some words) w = is_found o t offset words w

  module _ {A : Type 0} where
    -- Whether a package confirms a word of the transcript, and whether some package does.
    abbrev pub confirms : Option (AudioData F A) → Word F → Bool
    confirms none w = false
    confirms (some d) w = is_among d.confirmed_words w

    abbrev pub is_confirmed : List (LivePackage F A) → Word F → Bool
    is_confirmed [] w = false
    is_confirmed (live_dp ∷ live_dps) w = confirms live_dp.contents w || is_confirmed live_dps w

  -- What a round, or the loop, does: the words that a test selects are taken out, and at most one
  -- difference is noted for each; one for each if the times are there.
  pub record Takes (p : Word F → Bool) (times : Type 0) (d d' : Delays F) : Type 0 where
    pub left : d'.0 ≡ filter (λ w. not (p w)) d.0
    pub at_most : length d'.1 + length d'.0 ≤ length d.1 + length d.0
    pub one_each : times → length d'.1 + length d'.0 ≡ length d.1 + length d.0

  Takes-none : (times : Type 0) (d : Delays F) → Takes (λ w. false) times d d
  Takes-none times d = record {
    left = sym (filter_none d.0);
    at_most = omega arith;
    one_each = λ h. refl;
  }

  length-add_delays :
      (time : F) (start_after buffer_time : Option F) (words : List (Word F)) (diff : List F)
      → (length (add_delays o t time start_after buffer_time words diff)
          ≤ length diff + length words)
        × (AreKnown start_after buffer_time
            → length (add_delays o t time start_after buffer_time words diff)
              ≡ length diff + length words)
  unfolding add_delays
  length-add_delays time none b words diff = (omega arith, λ h. absurd h)
  length-add_delays time (some a) none words diff = (omega arith, λ h. absurd h)
  length-add_delays time (some a) (some b) words diff =
      let until_word : Word F → F = λ w. o.sub (o.add (o.add a b) time) w.end in
      let sum : length (diff ++ map until_word words) ≡ length diff + length words =
        omega (arith, length-append diff (map until_word words), length-map words until_word) in
      (omega (arith, sum), λ h. sum)

  Takes-then :
      (p p' : Word F → Bool) (times times' : Type 0) (d d' d'' : Delays F)
      → Takes p times d d'
      → Takes p' times' d' d''
      → Takes (λ w. p w || p' w) (times × times') d d''
  Takes-then p p' times times' d d' d'' r r' = record {
    left = r'.left ∙ ap (filter (λ w. not (p' w))) r.left ∙ filter-filter p p' d.0;
    at_most = omega (arith, r.at_most, r'.at_most);
    one_each = λ h. r'.one_each h.1 ∙ r.one_each h.0;
  }

  module _ {A : Type 0} (laws : IsEquality o) where
    words_round-Takes :
        (time : F) (d : AudioData F A) (words : Option (List (Word F))) (delays : Delays F)
        → (delays' : Delays F) × (words_round o t offset time d words delays ≡ ok delays')
          × Takes (is_among words) (HasTimes (some d)) delays delays'
    unfolding words_round confirmed_round
    words_round-Takes time d none delays = (delays, refl, Takes-none (HasTimes (some d)) delays)
    words_round-Takes time d (some words) (ts, diff) =
        let p : Word F → Bool = is_found o t offset words in
        let matched = filter p ts in
        let left = filter (λ w. not (p w)) ts in
        let removed : remove_each o t matched ts ≡ ok left =
          remove_each-filter o t laws p ts (is_found-word_eq o t laws offset words) in
        let (bound, exact) =
          length-add_delays time d.audio_buffer_start_after d.audio_buffer_time matched diff in
        let parts = length-filter-not p ts in
        let diff' =
          add_delays o t time d.audio_buffer_start_after d.audio_buffer_time matched diff in
        (
          (left, diff'),
          rw removed refl,
          record {
            left = refl;
            at_most = omega (arith, bound, parts);
            one_each = λ h. omega (arith, exact h, parts);
          },
        )

    package_round-Takes :
        (time : F) (contents : Option (AudioData F A)) (delays : Delays F)
        → (delays' : Delays F) × (package_round o t offset time contents delays ≡ ok delays')
          × Takes (confirms contents) (HasTimes contents) delays delays'
    unfolding package_round
    package_round-Takes time none delays = (delays, refl, Takes-none (Unit {0}) delays)
    package_round-Takes time (some d) delays = words_round-Takes time d d.confirmed_words delays

    -- The loop over the packages raises nothing. Left of the transcript are the words that no
    -- package confirms, and no more differences are noted than words are taken out; one for each
    -- such word if all packages with data know when their audio buffer began and how long it is.
    -- Condition: no time or probability is NaN.
    pub delays_of-Takes :
        (live_dps : List (LivePackage F A)) (delays : Delays F)
        → (delays' : Delays F) × (delays_of o t offset live_dps delays ≡ ok delays')
          × Takes (is_confirmed live_dps) (AreTimed live_dps) delays delays'
    unfolding delays_of
    delays_of-Takes [] delays = (delays, refl, Takes-none (Unit {0}) delays)
    delays_of-Takes (live_dp ∷ live_dps) delays =
        let (d', e, r) =
          package_round-Takes (o.sub live_dp.end_time live_dp.start_time) live_dp.contents delays in
        let (d'', e', r') = delays_of-Takes live_dps d' in
        (
          d'',
          rw (e, e'),
          Takes-then (confirms live_dp.contents) (is_confirmed live_dps) (HasTimes live_dp.contents)
              (AreTimed live_dps) delays d' d'' r r',
        )
