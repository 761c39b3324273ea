-- ===== src/Common/Sort.antt =====
-- Python's `sorted` with a key: a stable sort, written as insertion from the right.
use mathlib.Core.List.{Perm}
use mathlib.Core.List.Perm
use live_translation.Common.{
  ◌≡◌, refl, Bool, true, false, List, [], ◌∷◌, arith, if◌then◌else◌, Bool-cases, inl, inr, AllTrue,
  zero, suc, ℕ, drop,
}

module _ {ℓ} {A : Type ℓ} (le : A → A → Bool) where
  -- Before the first element that is not smaller.
  unfoldable pub insert_sorted : A → List A → List A
  insert_sorted x [] = x ∷ []
  insert_sorted x (y ∷ ys) = if le x y then x ∷ y ∷ ys else y ∷ insert_sorted x ys

  unfoldable pub sorted : List A → List A
  unfolding insert_sorted
  sorted [] = []
  sorted (x ∷ xs) = insert_sorted x (sorted xs)

  -- Each element is at most the next one.
  abbrev pub IsSorted : List A → Type 0
  IsSorted [] = Unit {0}
  IsSorted (x ∷ []) = Unit {0}
  IsSorted (x ∷ y ∷ ys) = (le x y ≡ true) × IsSorted (y ∷ ys)

  pub insert_sorted-perm : (x : A) (xs : List A) → Perm (insert_sorted x xs) (x ∷ xs)
  unfolding insert_sorted
  insert_sorted-perm x [] = Perm.refl (x ∷ [])
  insert_sorted-perm x (y ∷ ys) = elim (Bool-cases (le x y)) [
    | inl e ↦ rw e (Perm.refl (x ∷ y ∷ ys))
    | inr e ↦ rw e (Perm.trans (Perm.cons y (insert_sorted-perm x ys)) (Perm.swap x y ys))
  ]

  pub sorted-perm : (xs : List A) → Perm (sorted xs) xs
  unfolding sorted
  sorted-perm [] = Perm.refl []
  sorted-perm (x ∷ xs) =
      Perm.trans (insert_sorted-perm x (sorted xs)) (Perm.cons x (sorted-perm xs))

  module _ (total : (x y : A) → le x y ≡ false → le y x ≡ true) where
    insert_below :
        (y x : A) (xs : List A)
        → le y x ≡ true
        → IsSorted (y ∷ xs)
        → IsSorted (insert_sorted x xs)
        → IsSorted (y ∷ insert_sorted x xs)
    unfolding insert_sorted
    insert_below y x [] h s t = ground arith
    insert_below y x (z ∷ zs) h s t = ground arith

    pub insert_sorted-IsSorted : (x : A) (xs : List A) → IsSorted xs → IsSorted (insert_sorted x xs)
    unfolding insert_sorted
    insert_sorted-IsSorted x [] s = tt
    insert_sorted-IsSorted x (y ∷ []) s = ground (arith, total x y)
    insert_sorted-IsSorted x (y ∷ z ∷ zs) s = ground (
      arith,
      total x y,
      total x z,
      insert_sorted-IsSorted x (z ∷ zs) s.1,
      insert_below y x (z ∷ zs),
    )

    pub sorted-IsSorted : (xs : List A) → IsSorted (sorted xs)
    unfolding sorted
    sorted-IsSorted [] = tt
    sorted-IsSorted (x ∷ xs) = insert_sorted-IsSorted x (sorted xs) (sorted-IsSorted xs)

  -- A list that is in order comes back as it was.
  pub sorted-eq_self : (xs : List A) → IsSorted xs → sorted xs ≡ xs
  unfolding sorted insert_sorted
  sorted-eq_self [] s = refl
  sorted-eq_self (x ∷ []) s = refl
  sorted-eq_self (x ∷ y ∷ ys) s = rw (sorted-eq_self (y ∷ ys) s.1) (ground arith)

  pub insert_sorted-AllTrue :
      (p : A → Bool) (x : A) (xs : List A)
      → p x ≡ true
      → AllTrue p xs
      → AllTrue p (insert_sorted x xs)
  unfolding insert_sorted
  insert_sorted-AllTrue p x [] h k = (h, tt)
  insert_sorted-AllTrue p x (y ∷ ys) h k = ground (arith, insert_sorted-AllTrue p x ys h k.1)

  pub sorted-AllTrue : (p : A → Bool) (xs : List A) → AllTrue p xs → AllTrue p (sorted xs)
  unfolding sorted
  sorted-AllTrue p [] h = tt
  sorted-AllTrue p (x ∷ xs) h = insert_sorted-AllTrue p x (sorted xs) h.0 (sorted-AllTrue p xs h.1)

  module _ (trans : (x y z : A) → le x y ≡ true → le y z ≡ true → le x z ≡ true) where
    pub sorted_below : (x : A) (xs : List A) → IsSorted (x ∷ xs) → AllTrue (le x) xs
    sorted_below x [] s = tt
    sorted_below x (y ∷ ys) s = (s.0, raise_below ys (sorted_below y ys s.1))
      where
        raise_below : (zs : List A) → AllTrue (le y) zs → AllTrue (le x) zs
        raise_below [] h = tt
        raise_below (z ∷ zs) h = (trans x y z s.0 h.0, raise_below zs h.1)

  pub cons-IsSorted : (x : A) (xs : List A) → AllTrue (le x) xs → IsSorted xs → IsSorted (x ∷ xs)
  cons-IsSorted x [] h s = tt
  cons-IsSorted x (y ∷ ys) h s = (h.0, s)

  pub tail-IsSorted : (x : A) (xs : List A) → IsSorted (x ∷ xs) → IsSorted xs
  tail-IsSorted x [] h = tt
  tail-IsSorted x (y ∷ ys) h = h.1

  pub drop-IsSorted : (n : ℕ) (xs : List A) → IsSorted xs → IsSorted (drop n xs)
  drop-IsSorted zero xs h = h
  drop-IsSorted (suc n) [] h = tt
  drop-IsSorted (suc n) (x ∷ xs) h = drop-IsSorted n xs (tail-IsSorted x xs h)
