-- ===== src/ConfirmWords/Overlaps.antt =====
-- The two loops that remove overlapping words, against one pass over the list.
use live_translation.Common.{
  ℕ, zero, suc, ◌+◌, ◌-◌, ◌≡◌, refl, ap, ◌∙◌, Bool, List, [], ◌∷◌, ◌++◌, map, arith, length,
  length-append, AllTrue, Bool-cases, inl, inr, if◌then◌else◌, append_assoc,
}
use live_translation.Common.Result.{ok}
use live_translation.Common.Float.{Floats}
use live_translation.Data.{Word}
use live_translation.ConfirmWords.{
  TextTables, pop_at, remove_indices, overlaps, overlap_indices, remove_overlaps,
}

pop_at-append {ℓ} :
    {A : Type ℓ} (n : ℕ) (p : List A) (x : A) (xs : List A)
    → n ≡ length p
    → pop_at n (p ++ x ∷ xs) ≡ ok (p ++ xs)
unfolding pop_at
pop_at-append zero [] x xs e = refl
pop_at-append zero (y ∷ ys) x xs e = absurd (omega arith)
pop_at-append (suc n) [] x xs e = absurd (omega arith)
pop_at-append (suc n) (y ∷ ys) x xs e = rw (pop_at-append n ys x xs (omega arith))

module _ {F : Type 0} (o : Floats F) (t : TextTables F) where
  -- The list without each word that overlaps its successor.
  unfoldable pub without_overlaps : List (Word F) → List (Word F)
  without_overlaps [] = []
  without_overlaps (x ∷ []) = x ∷ []
  without_overlaps (x ∷ y ∷ ys) =
      let rest = without_overlaps (y ∷ ys) in if overlaps o t x y then rest else x ∷ rest

  -- Moving the indices down is the same as starting one lower.
  overlap_indices-down :
      (i : ℕ) (xs : List (Word F))
      → map (λ k. k - 1) (overlap_indices o t (i + 1) xs) ≡ overlap_indices o t i xs
  unfolding overlap_indices
  overlap_indices-down i [] = refl
  overlap_indices-down i (x ∷ []) = refl
  overlap_indices-down i (x ∷ y ∷ ys) = elim (Bool-cases (overlaps o t x y)) [
    | inl hit ↦
        let e : i + 1 - 1 ≡ i = omega arith in rw (hit, e, overlap_indices-down (i + 1) (y ∷ ys))
    | inr miss ↦ rw (miss, overlap_indices-down (i + 1) (y ∷ ys))
  ]

  length-overlap_indices :
      (i j : ℕ) (xs : List (Word F))
      → length (overlap_indices o t i xs) ≡ length (overlap_indices o t j xs)
  unfolding overlap_indices
  length-overlap_indices i j [] = refl
  length-overlap_indices i j (x ∷ []) = refl
  length-overlap_indices i j (x ∷ y ∷ ys) = elim (Bool-cases (overlaps o t x y)) [
    | inl hit ↦ rw hit (ap suc (length-overlap_indices (i + 1) (j + 1) (y ∷ ys)))
    | inr miss ↦ rw miss (length-overlap_indices (i + 1) (j + 1) (y ∷ ys))
  ]

  remove_indices-append :
      (n : ℕ) (p xs : List (Word F))
      → n ≡ length p
      → (let is = overlap_indices o t n xs in remove_indices (length is) is (p ++ xs))
        ≡ ok (p ++ without_overlaps xs)
  unfolding overlap_indices without_overlaps remove_indices
  remove_indices-append n p [] e = refl
  remove_indices-append n p (x ∷ []) e = refl
  remove_indices-append n p (x ∷ y ∷ ys) e = elim (Bool-cases (overlaps o t x y)) [
    | inl hit ↦
        rw
          (
            hit,
            pop_at-append n p x (y ∷ ys) e,
            overlap_indices-down n (y ∷ ys),
            length-overlap_indices (n + 1) n (y ∷ ys),
          )
          (remove_indices-append n p (y ∷ ys) e)
    | inr miss ↦
        let longer : n + 1 ≡ length (p ++ x ∷ []) = omega (arith, length-append p (x ∷ [])) in
        let whole : (p ++ x ∷ []) ++ y ∷ ys ≡ p ++ x ∷ y ∷ ys = append_assoc p (x ∷ []) (y ∷ ys) in
        let left = append_assoc p (x ∷ []) (without_overlaps (y ∷ ys)) in
        rw (miss, ← whole)
          (remove_indices-append (n + 1) (p ++ x ∷ []) (y ∷ ys) longer ∙ ap ok left)
  ]

  -- The loop that collects indices and the loop that pops them together remove exactly the words
  -- that overlap their successor and are similar to it. No index is ever out of range.
  pub remove_overlaps-without_overlaps :
      (words : List (Word F)) → remove_overlaps o t words ≡ ok (without_overlaps words)
  unfolding remove_overlaps
  remove_overlaps-without_overlaps words = remove_indices-append 0 [] words refl

  pub without_overlaps-AllTrue :
      (p : Word F → Bool) (xs : List (Word F)) → AllTrue p xs → AllTrue p (without_overlaps xs)
  unfolding without_overlaps
  without_overlaps-AllTrue p [] h = tt
  without_overlaps-AllTrue p (x ∷ []) h = h
  without_overlaps-AllTrue p (x ∷ y ∷ ys) h = elim (Bool-cases (overlaps o t x y)) [
    | inl hit ↦ rw hit (without_overlaps-AllTrue p (y ∷ ys) h.1)
    | inr miss ↦ rw miss (h.0, without_overlaps-AllTrue p (y ∷ ys) h.1)
  ]
