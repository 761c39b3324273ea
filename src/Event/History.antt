-- ===== src/Event/History.antt =====
-- The callbacks of an `EventHandler` after any history of registrations and removals.
use live_translation.Common.{
  ℕ, ◌+◌, ◌<◌, ◌≤◌, ◌≡◌, refl, sym, ap, ◌∙◌, Bool, false, ◌||◌, List, [], ◌∷◌, ◌++◌, map, none,
  some, arith, ◌==◌, if◌then◌else◌, append-nil, append_assoc, Bool-cases, inl, inr,
}
use live_translation.Common.Dict.{Dict, lookup, insert, erase, lookup-insert_self}
use live_translation.Event.{EventHandler, create, add_event, remove_event, emit}

pub data Call (C : Type 0) : Type 0 where
  adds : C → Call C
  removes : ℕ → Call C

module _ {C : Type 0} where
  unfoldable pub step : EventHandler C → Call C → EventHandler C
  step h (adds c) = (add_event h c).0
  step h (removes k) = remove_event h k

  unfoldable pub run : EventHandler C → List (Call C) → EventHandler C
  run h [] = h
  run h (x ∷ xs) = run (step h x) xs

  -- Is the id `k` removed in this history?
  abbrev pub is_removed : ℕ → List (Call C) → Bool
  is_removed k [] = false
  is_removed k (adds c ∷ xs) = is_removed k xs
  is_removed k (removes j ∷ xs) = (k == j) || is_removed k xs

  -- The registrations that no later call removes, where the next id is `n`.
  pub surviving : ℕ → List (Call C) → Dict C
  surviving n [] = []
  surviving n (adds c ∷ xs) =
      if is_removed n xs then surviving (n + 1) xs else (n, c) ∷ surviving (n + 1) xs
  surviving n (removes j ∷ xs) = surviving n xs

  -- The entries that the history leaves in place.
  kept : List (Call C) → Dict C → Dict C
  kept xs [] = []
  kept xs (e ∷ d) = if is_removed e.0 xs then kept xs d else e ∷ kept xs d

  -- Ids are below `n`, and none stands twice.
  abbrev pub IsFresh : ℕ → Dict C → Type 0
  IsFresh n [] = Unit {0}
  IsFresh n (e ∷ d) = (e.0 < n) × (lookup e.0 d ≡ none) × IsFresh n d

  pub lookup_above : (n k : ℕ) (d : Dict C) → IsFresh n d → n ≤ k → lookup k d ≡ none
  lookup_above n k [] v h = refl
  lookup_above n k (e ∷ d) v h = ground (arith, lookup_above n k d v.2 h)

  pub insert_new :
      (n : ℕ) (c : C) (d : Dict C) → lookup n d ≡ none → insert n c d ≡ d ++ (n, c) ∷ []
  insert_new n c [] h = refl
  insert_new n c (e ∷ d) h = ground (arith, insert_new n c d)

  lookup-append_none :
      (k : ℕ) (d f : Dict C) → lookup k d ≡ none → lookup k f ≡ none → lookup k (d ++ f) ≡ none
  lookup-append_none k [] f h g = g
  lookup-append_none k (e ∷ d) f h g = ground (arith, lookup-append_none k d f)

  append-IsFresh : (n : ℕ) (c : C) (d : Dict C) → IsFresh n d → IsFresh (n + 1) (d ++ (n, c) ∷ [])
  append-IsFresh n c [] v = (omega arith, refl, tt)
  append-IsFresh n c (e ∷ d) v = (
    omega arith,
    lookup-append_none e.0 d ((n, c) ∷ []) v.1 (ground arith),
    append-IsFresh n c d v.2,
  )

  lookup-erase-none : (j k : ℕ) (d : Dict C) → lookup j d ≡ none → lookup j (erase k d) ≡ none
  lookup-erase-none j k [] h = refl
  lookup-erase-none j k (e ∷ d) h = ground (arith, lookup-erase-none j k d)

  erase-IsFresh : (n k : ℕ) (d : Dict C) → IsFresh n d → IsFresh n (erase k d)
  erase-IsFresh n k [] v = tt
  erase-IsFresh n k (e ∷ d) v =
      ground (arith, erase-IsFresh n k d v.2, lookup-erase-none e.0 k d v.1)

  kept-append : (xs : List (Call C)) (d f : Dict C) → kept xs (d ++ f) ≡ kept xs d ++ kept xs f
  unfolding kept
  kept-append xs [] f = refl
  kept-append xs (e ∷ d) f = ground (arith, kept-append xs d f)

  kept-nil : (d : Dict C) → kept [] d ≡ d
  unfolding kept
  kept-nil [] = refl
  kept-nil (e ∷ d) = ap (◌∷◌ e) (kept-nil d)

  kept-adds : (c : C) (xs : List (Call C)) (d : Dict C) → kept (adds c ∷ xs) d ≡ kept xs d
  unfolding kept
  kept-adds c xs [] = refl
  kept-adds c xs (e ∷ d) = ground (arith, kept-adds c xs d)

  kept-removes_none :
      (k : ℕ) (xs : List (Call C)) (d : Dict C)
      → lookup k d ≡ none
      → kept (removes k ∷ xs) d ≡ kept xs d
  unfolding kept
  kept-removes_none k xs [] h = refl
  kept-removes_none k xs (e ∷ d) h = ground (arith, kept-removes_none k xs d)

  kept-removes :
      (k n : ℕ) (xs : List (Call C)) (d : Dict C)
      → IsFresh n d
      → kept xs (erase k d) ≡ kept (removes k ∷ xs) d
  unfolding kept
  kept-removes k n xs [] v = refl
  kept-removes k n xs (e ∷ d) v =
      ground (arith, kept-removes k n xs d v.2, kept-removes_none k xs d)

  kept_one :
      (n : ℕ) (c : C) (xs : List (Call C))
      → kept xs ((n, c) ∷ []) ++ surviving (n + 1) xs ≡ surviving n (adds c ∷ xs)
  unfolding kept surviving
  kept_one n c xs = elim (Bool-cases (is_removed n xs)) [
    | inl gone ↦ rw (gone)
    | inr stays ↦ rw (stays)
  ]

  run-callbacks :
      (h : EventHandler C) (xs : List (Call C))
      → IsFresh h.next_id h.callbacks
      → (run h xs).callbacks ≡ kept xs h.callbacks ++ surviving h.next_id xs
  unfolding run step add_event remove_event surviving
  run-callbacks h [] v = rw (kept-nil h.callbacks, append-nil h.callbacks)
  run-callbacks h (adds c ∷ xs) v =
      let n = h.next_id in
      let d = h.callbacks in
      let e = insert_new n c d (lookup_above n n d v (omega arith)) in
      let after = λ (t : Dict C). (run (record { callbacks = t; next_id = n + 1 }) xs).callbacks in
      let next : EventHandler C = record { callbacks = d ++ (n, c) ∷ []; next_id = n + 1 } in
      ap after e
      ∙ run-callbacks next xs (append-IsFresh n c d v)
      ∙ ap (λ t. t ++ surviving (n + 1) xs) (kept-append xs d ((n, c) ∷ []))
      ∙ append_assoc (kept xs d) (kept xs ((n, c) ∷ [])) (surviving (n + 1) xs)
      ∙ ap (λ t. kept xs d ++ t) (kept_one n c xs)
      ∙ ap (λ t. t ++ surviving n (adds c ∷ xs)) (sym (kept-adds c xs d))
  run-callbacks h (removes k ∷ xs) v =
      run-callbacks (remove_event h k) xs (erase-IsFresh h.next_id k h.callbacks v)
      ∙ ap (λ t. t ++ surviving h.next_id xs) (kept-removes k h.next_id xs h.callbacks v)

  -- After any sequence of registrations and removals `emit` starts exactly the callbacks that were
  -- registered and whose id was not removed later, in the order of their registration.
  pub emit-run : (xs : List (Call C)) → emit (run create xs) ≡ map (λ e. e.1) (surviving 0 xs)
  unfolding emit kept
  emit-run xs = ap (map (λ e. e.1)) (run-callbacks create xs tt)

  run-IsFresh :
      (h : EventHandler C) (xs : List (Call C))
      → IsFresh h.next_id h.callbacks
      → IsFresh (run h xs).next_id (run h xs).callbacks
  unfolding run step add_event remove_event
  run-IsFresh h [] v = v
  run-IsFresh h (adds c ∷ xs) v =
      let n = h.next_id in
      let e = insert_new n c h.callbacks (lookup_above n n h.callbacks v (omega arith)) in
      run-IsFresh (step h (adds c)) xs (rw e (append-IsFresh n c h.callbacks v))
  run-IsFresh h (removes k ∷ xs) v =
      run-IsFresh (step h (removes k)) xs (erase-IsFresh h.next_id k h.callbacks v)

  -- The id that `add_event` hands out after any history is not the id of a registered callback.
  pub add_event-fresh :
      (xs : List (Call C)) (c : C)
      → let h = run create xs in
        (lookup (add_event h c).1 h.callbacks ≡ none)
        × (lookup (add_event h c).1 (add_event h c).0.callbacks ≡ some c)
  unfolding add_event
  add_event-fresh xs c =
      let h = run create xs in
      let v = run-IsFresh create xs tt in
      (
        lookup_above h.next_id h.next_id h.callbacks v (omega arith),
        lookup-insert_self h.next_id c h.callbacks,
      )
