-- ===== src/Evaluation/Delay/Removal.antt =====
-- The loop that removes selected words one by one, against a filter.
use live_translation.Common.{
  ◌+◌, ◌≡◌, refl, ap, inl, inr, Bool, true, false, ◌||◌, not, List, [], ◌∷◌, filter, length, arith,
  AllTrue, filter-AllTrue, Bool-cases,
}
use live_translation.Common.Result.{ok, Result-cases}
use live_translation.Common.Float.{Floats}
use live_translation.Ogg.Utf8.{Text}
use live_translation.Ogg.Bytes.{bytes_eq}
use live_translation.Data.{Word}
use live_translation.ConfirmWords.{TextTables}
use live_translation.Evaluation.Delay.{word_eq, is_match, is_found, remove, remove_each}

-- What IEEE 754 says of `==`, where no operand is NaN.
pub record IsEquality {F : Type 0} (o : Floats F) : Type 0 where
  pub feq_refl : (a : F) → o.feq a a ≡ true
  pub fle_left : (a b c : F) → o.feq a b ≡ true → o.fle a c ≡ o.fle b c
  pub fle_right : (a b c : F) → o.feq a b ≡ true → o.fle c a ≡ o.fle c b

bytes_eq_refl : (xs : Text) → bytes_eq xs xs ≡ true
bytes_eq_refl [] = refl
bytes_eq_refl (x ∷ xs) = ground (arith, bytes_eq_refl xs)

bytes_eq_sound : (xs ys : Text) → bytes_eq xs ys ≡ true → xs ≡ ys
bytes_eq_sound [] [] h = refl
bytes_eq_sound [] (y ∷ ys) h = absurd (ground arith)
bytes_eq_sound (x ∷ xs) [] h = absurd (ground arith)
bytes_eq_sound (x ∷ xs) (y ∷ ys) h =
    let e : x ≡ y = ground arith in rw (e, bytes_eq_sound xs ys (ground arith)) refl

pub length-filter-not {ℓ} :
    {A : Type ℓ} (p : A → Bool) (xs : List A)
    → length (filter p xs) + length (filter (λ x. not (p x)) xs) ≡ length xs
length-filter-not p [] = refl
length-filter-not p (x ∷ xs) = ground (arith, length-filter-not p xs)

pub filter-filter {ℓ} :
    {A : Type ℓ} (p q : A → Bool) (xs : List A)
    → filter (λ x. not (q x)) (filter (λ x. not (p x)) xs) ≡ filter (λ x. not (p x || q x)) xs
filter-filter p q [] = refl
filter-filter p q (x ∷ xs) = elim (Bool-cases (p x)) [
  | inl e ↦ rw e (filter-filter p q xs)
  | inr e ↦ elim (Bool-cases (q x)) [
    | inl e' ↦ rw (e, e') (filter-filter p q xs)
    | inr e' ↦ rw (e, e') (ap (◌∷◌ x) (filter-filter p q xs))
  ]
]

module _ {F : Type 0} (o : Floats F) (t : TextTables F) (laws : IsEquality o) where
  word_eq_refl : (x : Word F) → word_eq o t x x ≡ true
  word_eq_refl x =
      rw
        (
          bytes_eq_refl x.word,
          laws.feq_refl x.start,
          laws.feq_refl x.end,
          laws.feq_refl x.probability,
        )
        refl

  is_match-word_eq :
      (offset : F) (lw x y : Word F)
      → word_eq o t x y ≡ true
      → is_match o t offset x lw ≡ is_match o t offset y lw
  unfolding is_match
  is_match-word_eq offset lw x y e =
      let texts : x.word ≡ y.word = bytes_eq_sound x.word y.word (ground arith) in
      let starts : o.feq x.start y.start ≡ true = ground arith in
      rw
        (
          texts,
          laws.fle_left x.start y.start (o.add lw.end offset) starts,
          laws.fle_right x.start y.start (o.sub lw.start offset) starts,
        )
        refl

  -- Equal words match the same confirmed words.
  pub is_found-word_eq :
      (offset : F) (lws : List (Word F)) (x y : Word F)
      → word_eq o t x y ≡ true
      → is_found o t offset lws x ≡ is_found o t offset lws y
  unfolding is_found
  is_found-word_eq offset [] x y e = refl
  is_found-word_eq offset (lw ∷ lws) x y e =
      simp (is_match-word_eq offset lw x y e, is_found-word_eq offset lws x y e) refl

  -- Elements that differ from the first one are removed behind it.
  remove_each-cons :
      (p : Word F → Bool) (ys : List (Word F)) (x : Word F) (xs rest : List (Word F))
      → ((a b : Word F) → word_eq o t a b ≡ true → p a ≡ p b)
      → p x ≡ false
      → AllTrue p ys
      → remove_each o t ys xs ≡ ok rest
      → remove_each o t ys (x ∷ xs) ≡ ok (x ∷ rest)
  unfolding remove_each remove
  remove_each-cons p [] x xs rest respects h all e = cc
  remove_each-cons p (y ∷ ys) x xs rest respects h all e = elim (Bool-cases (word_eq o t x y)) [
    | inl same ↦ absurd (let e' = respects x y same in let e'' = all.0 in ground arith)
    | inr differ ↦ elim (Result-cases (remove o t y xs)) [
      | inr (error, raised) ↦ absurd (let e' = rw raised at e in ground arith)
      | inl (left, removed) ↦
          let e' = rw removed at e in
          rw (differ, removed) (remove_each-cons p ys x left rest respects h all.1 e')
    ]
  ]

  -- Removing one by one what a test selects leaves what it does not select.
  pub remove_each-filter :
      (p : Word F → Bool) (xs : List (Word F))
      → ((a b : Word F) → word_eq o t a b ≡ true → p a ≡ p b)
      → remove_each o t (filter p xs) xs ≡ ok (filter (λ x. not (p x)) xs)
  unfolding remove_each remove
  remove_each-filter p [] respects = refl
  remove_each-filter p (x ∷ xs) respects = elim (Bool-cases (p x)) [
    | inl selected ↦ rw (selected, word_eq_refl x) (remove_each-filter p xs respects)
    | inr other ↦ rw other (
        remove_each-cons p (filter p xs) x xs (filter (λ z. not (p z)) xs) respects other
          (filter-AllTrue p xs) (remove_each-filter p xs respects))
  ]
