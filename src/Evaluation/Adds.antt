-- ===== src/Evaluation/Adds.antt =====
-- How `compute_statistics` fills its lists: each opcode, and a tiling of both lists by opcodes.
use live_translation.Common.{
  ℕ, zero, suc, ◌+◌, ◌-◌, ◌≤◌, ◌≡◌, refl, sym, ap, ◌∙◌, List, [], ◌∷◌, ◌++◌, length, arith, min,
  take, drop, length-map, length-append, length-drop, get_elem?-some, append-nil, append_assoc,
  get_elem?, some,
}
use live_translation.Common.Result.{ok}
use live_translation.Common.Float.{Floats}
use live_translation.Ogg.Utf8.{Text}
use live_translation.Data.{Word}
use live_translation.Evaluation.{
  Tag, equal, replace, delete, insert, Opcode, Matching, Alignment, part, pairs_from, zipped,
  add_deltas, align, align_all, stripped,
}
use live_translation.Evaluation.Opcodes.{
  Tiles, Follows, zip, substituted_words, deleted_words, inserted_words, concat_over, substituted,
  deleted, inserted, sum_over, length-part,
}

drop-cons {ℓ} :
    {A : Type ℓ} (xs : List A) (i : ℕ) (x : A)
    → get_elem? xs i ≡ some x
    → drop i xs ≡ x ∷ drop (i + 1) xs
drop-cons [] i x e = cc
drop-cons (y ∷ ys) zero x e = cc
drop-cons (y ∷ ys) (suc i) x e =
    let s : suc i + 1 ≡ suc (i + 1) = omega arith in rw s (drop-cons ys i x e)

pairs_from-zip {ℓ} :
    {A : Type ℓ} (xs ys : List A) (n i j : ℕ)
    → i + n ≤ length xs
    → j + n ≤ length ys
    → pairs_from xs ys n i j ≡ ok (zip (take n (drop i xs)) (take n (drop j ys)))
unfolding pairs_from
pairs_from-zip xs ys zero i j h k = refl
pairs_from-zip xs ys (suc n) i j h k =
    let (x, ex) = get_elem?-some xs i (omega arith) in
    let (y, ey) = get_elem?-some ys j (omega arith) in
    let e = pairs_from-zip xs ys n (i + 1) (j + 1) (omega arith) (omega arith) in
    rw (ex, ey, e, drop-cons xs i x ex, drop-cons ys j y ey) refl

zip-take {ℓ} :
    {A : Type ℓ} (m n : ℕ) (xs ys : List A)
    → zip (take (min m n) xs) (take (min m n) ys) ≡ zip (take m xs) (take n ys)
zip-take zero n xs ys = let e : min zero n ≡ zero = omega arith in rw e refl
zip-take (suc m) zero [] ys = let e : min (suc m) zero ≡ zero = omega arith in rw e refl
zip-take (suc m) zero (x ∷ xs) ys = let e : min (suc m) zero ≡ zero = omega arith in rw e refl
zip-take (suc m) (suc n) [] ys =
    let e : min (suc m) (suc n) ≡ suc (min m n) = omega arith in rw e refl
zip-take (suc m) (suc n) (x ∷ xs) [] =
    let e : min (suc m) (suc n) ≡ suc (min m n) = omega arith in rw e refl
zip-take (suc m) (suc n) (x ∷ xs) (y ∷ ys) =
    let e : min (suc m) (suc n) ≡ suc (min m n) = omega arith in
    rw e (ap (◌∷◌ (x, y)) (zip-take m n xs ys))

length-zip {ℓ} :
    {A : Type ℓ} (n : ℕ) (xs ys : List A)
    → n ≤ length xs
    → n ≤ length ys
    → length (zip (take n xs) (take n ys)) ≡ n
length-zip zero xs ys h k = refl
length-zip (suc n) [] ys h k = absurd (omega (arith, h))
length-zip (suc n) (x ∷ xs) [] h k = absurd (omega (arith, k))
length-zip (suc n) (x ∷ xs) (y ∷ ys) h k = ap suc (length-zip n xs ys (omega arith) (omega arith))

module _ {F : Type 0} (o : Floats F) (m : Matching F) where
  -- What the lists of an alignment grow by, and how far.
  pub record Adds (a a' : Alignment F) (s d n : ℕ) (ps : List (Word F × Word F))
      (ds ns : List (Word F)) : Type 0 where
    pub pairs_are : a'.substitution_list ≡ a.substitution_list ++ ps
    pub deletions_are : a'.deletion_list ≡ a.deletion_list ++ ds
    pub insertions_are : a'.insertion_list ≡ a.insertion_list ++ ns
    pub pairs_added : length a'.substitution_list ≡ length a.substitution_list + s
    pub deletions_added : length a'.deletion_list ≡ length a.deletion_list + d
    pub insertions_added : length a'.insertion_list ≡ length a.insertion_list + n

  module _ (xs ys : List (Word F)) where
    abbrev pub texts_x : List Text
    texts_x = stripped o m xs

    abbrev pub texts_y : List Text
    texts_y = stripped o m ys

    pub length-texts_x : length texts_x ≡ length xs
    length-texts_x = length-map xs (λ w. m.strip w.word)

    pub length-texts_y : length texts_y ≡ length ys
    length-texts_y = length-map ys (λ w. m.strip w.word)

    zipped-total :
        (i j : ℕ) (tag : Tag) (op : Opcode)
        → Follows texts_x texts_y i j tag op
        → (zipped xs ys op
            ≡ ok
                (zip (take (op.i2 - op.i1) (drop op.i1 xs)) (take (op.j2 - op.j1) (drop op.j1 ys))))
          × (length
                (zip (take (op.i2 - op.i1) (drop op.i1 xs)) (take (op.j2 - op.j1) (drop op.j1 ys)))
              ≡ min (op.i2 - op.i1) (op.j2 - op.j1))
    unfolding zipped
    zipped-total i j tag op f =
        let n = min (op.i2 - op.i1) (op.j2 - op.j1) in
        let h : op.i1 + n ≤ length xs =
          omega (arith, f.at_i, f.grows_i, f.inside_a, length-texts_x) in
        let k : op.j1 + n ≤ length ys =
          omega (arith, f.at_j, f.grows_j, f.inside_b, length-texts_y) in
        let same = zip-take (op.i2 - op.i1) (op.j2 - op.j1) (drop op.i1 xs) (drop op.j1 ys) in
        (
          pairs_from-zip xs ys n op.i1 op.j1 h k ∙ ap ok same,
          sym (ap length same)
              ∙ length-zip n (drop op.i1 xs) (drop op.j1 ys)
                  (omega (arith, h, length-drop op.i1 xs)) (omega (arith, k, length-drop op.j1 ys)),
        )

    align-Adds :
        (i j : ℕ) (tag : Tag) (op : Opcode) (a : Alignment F)
        → Follows texts_x texts_y i j tag op
        → (a' : Alignment F) × (align o m xs ys tag op a ≡ ok a')
          × Adds a a'
              (substituted tag op)
              (deleted tag op)
              (inserted tag op)
              (substituted_words xs ys tag op)
              (deleted_words xs tag op)
              (inserted_words ys tag op)
    unfolding align add_deltas
    align-Adds i j equal op a f =
        let (e, count) = zipped-total i j equal op f in
        let pairs =
          zip (take (op.i2 - op.i1) (drop op.i1 xs)) (take (op.j2 - op.j1) (drop op.j1 ys)) in
        (
          add_deltas o m pairs a,
          rw e refl,
          record {
            pairs_are = sym (append-nil a.substitution_list);
            deletions_are = sym (append-nil a.deletion_list);
            insertions_are = sym (append-nil a.insertion_list);
            pairs_added = omega arith;
            deletions_added = omega arith;
            insertions_added = omega arith;
          },
        )
    align-Adds i j replace op a f =
        let (e, count) = zipped-total i j replace op f in
        let pairs =
          zip (take (op.i2 - op.i1) (drop op.i1 xs)) (take (op.j2 - op.j1) (drop op.j1 ys)) in
        (
          record a { substitution_list = a.substitution_list ++ pairs },
          rw e refl,
          record {
            pairs_are = refl;
            deletions_are = sym (append-nil a.deletion_list);
            insertions_are = sym (append-nil a.insertion_list);
            pairs_added =
                length-append a.substitution_list pairs
                ∙ ap (λ n. length a.substitution_list + n) count;
            deletions_added = omega arith;
            insertions_added = omega arith;
          },
        )
    align-Adds i j delete op a f =
        let gone = part xs op.i1 op.i2 in
        (
          record a { deletion_list = a.deletion_list ++ gone },
          refl,
          record {
            pairs_are = sym (append-nil a.substitution_list);
            deletions_are = refl;
            insertions_are = sym (append-nil a.insertion_list);
            pairs_added = omega arith;
            deletions_added = omega (
              arith,
              length-append a.deletion_list gone,
              length-part xs op.i1 op.i2 (omega (arith, f.inside_a, length-texts_x)),
            );
            insertions_added = omega arith;
          },
        )
    align-Adds i j insert op a f =
        let more = part ys op.j1 op.j2 in
        (
          record a { insertion_list = a.insertion_list ++ more },
          refl,
          record {
            pairs_are = sym (append-nil a.substitution_list);
            deletions_are = sym (append-nil a.deletion_list);
            insertions_are = refl;
            pairs_added = omega arith;
            deletions_added = omega arith;
            insertions_added = omega (
              arith,
              length-append a.insertion_list more,
              length-part ys op.j1 op.j2 (omega (arith, f.inside_b, length-texts_y)),
            );
          },
        )

    pub align_all-Adds :
        (i j : ℕ) (ops : List Opcode) (a : Alignment F)
        → Tiles texts_x texts_y i j ops
        → (a' : Alignment F) × (align_all o m xs ys ops a ≡ ok a')
          × Adds a a'
              (sum_over substituted ops)
              (sum_over deleted ops)
              (sum_over inserted ops)
              (concat_over (substituted_words xs ys) ops)
              (concat_over (deleted_words xs) ops)
              (concat_over (inserted_words ys) ops)
    unfolding align_all
    align_all-Adds i j [] a t = (
      a,
      refl,
      record {
        pairs_are = sym (append-nil a.substitution_list);
        deletions_are = sym (append-nil a.deletion_list);
        insertions_are = sym (append-nil a.insertion_list);
        pairs_added = omega arith;
        deletions_added = omega arith;
        insertions_added = omega arith;
      },
    )
    align_all-Adds i j (op ∷ ops) a t =
        let (a', e, adds) = align-Adds i j op.tag op a t.0 in
        let (a'', e', more) = align_all-Adds op.i2 op.j2 ops a' t.1 in
        (
          a'',
          rw (e, e'),
          record {
            pairs_are =
                more.pairs_are
                ∙ ap (λ t. t ++ concat_over (substituted_words xs ys) ops) adds.pairs_are
                ∙ append_assoc a.substitution_list (substituted_words xs ys op.tag op)
                    (concat_over (substituted_words xs ys) ops);
            deletions_are =
                more.deletions_are
                ∙ ap (λ t. t ++ concat_over (deleted_words xs) ops) adds.deletions_are
                ∙ append_assoc a.deletion_list (deleted_words xs op.tag op)
                    (concat_over (deleted_words xs) ops);
            insertions_are =
                more.insertions_are
                ∙ ap (λ t. t ++ concat_over (inserted_words ys) ops) adds.insertions_are
                ∙ append_assoc a.insertion_list (inserted_words ys op.tag op)
                    (concat_over (inserted_words ys) ops);
            pairs_added = omega (arith, adds.pairs_added, more.pairs_added);
            deletions_added = omega (arith, adds.deletions_added, more.deletions_added);
            insertions_added = omega (arith, adds.insertions_added, more.insertions_added);
          },
        )
