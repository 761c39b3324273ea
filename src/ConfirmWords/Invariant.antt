-- ===== src/ConfirmWords/Invariant.antt =====
-- The confirmed words after a call of `execute` of m_confirm_words.py.
use live_translation.Common.{
  Option, some, none, ℕ, ◌-◌, ◌≤◌, ◌<◌, ◌≡◌, Bool, true, false, not, List, [], ◌∷◌, ◌++◌, arith,
  length, length-drop, drop-AllTrue, AllTrue, filter, filter-AllTrue, Bool-cases, inl, inr,
}
use live_translation.Common.Result.{ok}
use live_translation.Common.Sort.{
  IsSorted, sorted, sorted-IsSorted, sorted-AllTrue, sorted_below, cons-IsSorted, drop-IsSorted,
}
use live_translation.Common.Float.{Floats, IsOrdered}
use live_translation.Data.{TextSegment, Word, AudioData}
use live_translation.ConfirmWords.{
  ConfirmWords, TextTables, last_n, limit, by_start, is_confirmed, is_old, is_probable, overlaps,
  finish, confirm, words_of, confirm_segments, confirm_fields, execute,
}
use live_translation.ConfirmWords.Overlaps.{
  without_overlaps, remove_overlaps-without_overlaps, without_overlaps-AllTrue,
}

-- What a list keeps if any number of its first elements are dropped.
length-limit {ℓ} : {A : Type ℓ} (n : ℕ) (xs : List A) → 0 < n → length (limit n xs) ≤ n
unfolding limit last_n
length-limit n xs h = ground (arith, length-drop (length xs - n) xs)

limit-AllTrue {ℓ} :
    {A : Type ℓ} (p : A → Bool) (n : ℕ) (xs : List A) → AllTrue p xs → AllTrue p (limit n xs)
unfolding limit last_n
limit-AllTrue p n xs h = ground (arith, drop-AllTrue p (length xs - n) xs h)

limit-IsSorted {ℓ} :
    {A : Type ℓ} (le : A → A → Bool) (n : ℕ) (xs : List A)
    → IsSorted le xs
    → IsSorted le (limit n xs)
unfolding limit last_n
limit-IsSorted le n xs h = ground (arith, drop-IsSorted le (length xs - n) xs h)

module _ {F : Type 0} (o : Floats F) (t : TextTables F) (laws : IsOrdered o) where
  by_start_total : (x y : Word F) → by_start o t x y ≡ false → by_start o t y x ≡ true
  by_start_total x y h = ground (arith, laws.flt_asymm y.start x.start)

  by_start_trans :
      (x y z : Word F) → by_start o t x y ≡ true → by_start o t y z ≡ true → by_start o t x z ≡ true
  by_start_trans x y z h k = ground (
    arith,
    laws.flt-not-fle y.start x.start,
    laws.flt-not-fle z.start y.start,
    laws.fle_trans x.start y.start z.start,
    laws.not-flt-of-fle z.start x.start,
  )

  without_overlaps-IsSorted :
      (xs : List (Word F))
      → IsSorted (by_start o t) xs
      → IsSorted (by_start o t) (without_overlaps o t xs)
  unfolding without_overlaps
  without_overlaps-IsSorted [] h = tt
  without_overlaps-IsSorted (x ∷ []) h = tt
  without_overlaps-IsSorted (x ∷ y ∷ ys) h =
      let rest = without_overlaps-IsSorted (y ∷ ys) h.1 in
      let below =
        without_overlaps-AllTrue o t (by_start o t x) (y ∷ ys)
          (sorted_below (by_start o t) by_start_trans x (y ∷ ys) h) in
      elim (Bool-cases (overlaps o t x y)) [
        | inl hit ↦ rw hit rest
        | inr miss ↦ rw miss (cons-IsSorted (by_start o t) x _ below rest)
      ]

  -- The confirmed words are in the order of their start times, none has a probability below 0.2,
  -- and there are at most `max_confirmed_words` of them, unless that is 0.
  pub record IsClean (s : ConfirmWords F) : Type 0 where
    pub in_order : IsSorted (by_start o t) s.confirmed
    pub probable : AllTrue (is_probable o t) s.confirmed
    pub bounded : 0 < s.max_confirmed_words → length s.confirmed ≤ s.max_confirmed_words

  finish-IsClean :
      (s : ConfirmWords F) (words : List (Word F))
      → IsSorted (by_start o t) words
      → AllTrue (is_probable o t) words
      → IsClean (finish o t s words)
  unfolding finish
  finish-IsClean s words h k =
      let n = s.max_confirmed_words in
      let once = limit n words in
      record {
        in_order = limit-IsSorted _ n once (limit-IsSorted _ n words h);
        probable = limit-AllTrue _ n once (limit-AllTrue _ n words k);
        bounded = λ some_limit. length-limit n once some_limit;
      }

  confirm-IsClean :
      (s : ConfirmWords F) (buffer_end : F) (new_words : List (Word F))
      → (s' : ConfirmWords F) × (confirm o t s buffer_end new_words
          ≡ ok (s', filter (λ w. not (is_confirmed o t s w)) new_words))
        × IsClean s'
  unfolding confirm
  confirm-IsClean s buffer_end new_words =
      let fresh = filter (λ w. not (is_confirmed o t s w)) new_words in
      let all = s.confirmed ++ filter (is_old o t s buffer_end) fresh in
      let probable = filter (is_probable o t) all in
      let words = sorted (by_start o t) probable in
      (
        finish o t s (without_overlaps o t words),
        rw (remove_overlaps-without_overlaps o t words),
        finish-IsClean s (without_overlaps o t words)
            (without_overlaps-IsSorted words
              (sorted-IsSorted (by_start o t) by_start_total probable))
            (without_overlaps-AllTrue o t (is_probable o t) words (
              sorted-AllTrue (by_start o t) (is_probable o t) probable
                (filter-AllTrue (is_probable o t) all))),
      )

  module _ {A : Type 0} where
    confirm_segments-IsClean :
        (s : ConfirmWords F) (d : AudioData F A) (a b : F) (words : List (Word F))
        → IsClean s
        → IsClean (confirm_segments o t s d a b words).0
    unfolding confirm_segments
    confirm_segments-IsClean s d a b [] v = v
    confirm_segments-IsClean s d a b (w ∷ ws) v =
        let (s', e, v') = confirm-IsClean s (o.add a b) (w ∷ ws) in rw e v'

    confirm_fields-IsClean :
        (s : ConfirmWords F) (d : AudioData F A) (segments : Option (List (TextSegment F)))
        (a b : Option F)
        → IsClean s
        → IsClean (confirm_fields o t s d segments a b).0
    unfolding confirm_fields
    confirm_fields-IsClean s d none a b v = v
    confirm_fields-IsClean s d (some segments) none b v = v
    confirm_fields-IsClean s d (some segments) (some a) none v = v
    confirm_fields-IsClean s d (some segments) (some a) (some b) v =
        confirm_segments-IsClean s d a b (words_of o t segments) v

    -- Every call of `execute`, also one that raises, keeps the confirmed words in the order of their
    -- start times, each with a probability of 0.2 or more, and at most `max_confirmed_words` of them,
    -- unless that limit is 0. Condition: comparisons of the floats that occur follow IEEE 754 for
    -- numbers.
    pub execute-IsClean :
        (s : ConfirmWords F) (d : AudioData F A) → IsClean s → IsClean (execute o t s d).0
    unfolding execute
    execute-IsClean s d v =
        confirm_fields-IsClean s d d.transcribed_segments d.audio_buffer_start_after
          d.audio_buffer_time v
