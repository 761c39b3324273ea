-- ===== src/Evaluation/Opcodes.antt =====
-- What difflib documents of `get_opcodes`, and how the parts of the opcodes add up to both lists.
use live_translation.Common.{
  ℕ, ◌+◌, ◌-◌, ◌≤◌, ◌<◌, ◌≡◌, refl, sym, ap, subst, ◌∙◌, List, [], ◌∷◌, ◌++◌, length, take, drop,
  arith, min, length-take, length-drop, take-append-drop, drop-drop, drop-length,
}
use live_translation.Ogg.Utf8.{Text}
use live_translation.Evaluation.{Tag, equal, replace, delete, insert, Opcode, part}

-- What a tag says of the parts `a[i1:i2]` and `b[j1:j2]`.
abbrev pub TagHolds : List Text → List Text → Tag → Opcode → Type 0
TagHolds a b equal op = part a op.i1 op.i2 ≡ part b op.j1 op.j2
TagHolds a b replace op = (op.i1 < op.i2) × (op.j1 < op.j2)
TagHolds a b delete op = op.j1 ≡ op.j2
TagHolds a b insert op = op.i1 ≡ op.i2

-- One opcode, where the one before it ended at `i` and `j`.
pub record Follows (a b : List Text) (i j : ℕ) (tag : Tag) (op : Opcode) : Type 0 where
  pub at_i : op.i1 ≡ i
  pub at_j : op.j1 ≡ j
  pub grows_i : i ≤ op.i2
  pub grows_j : j ≤ op.j2
  pub inside_a : op.i2 ≤ length a
  pub inside_b : op.j2 ≤ length b
  pub right : TagHolds a b tag op

-- The opcodes go over both lists, from `i` and `j` to their ends, without a gap.
abbrev pub Tiles : List Text → List Text → ℕ → ℕ → List Opcode → Type 0
Tiles a b i j [] = (i ≡ length a) × (j ≡ length b)
Tiles a b i j (op ∷ ops) = Follows a b i j op.tag op × Tiles a b op.i2 op.j2 ops

-- The words of the parts that are equal.
abbrev pub agreed : Tag → Opcode → ℕ
agreed equal op = op.i2 - op.i1
agreed _ op = 0

-- The words of a replaced part that `zip` leaves without a partner.
abbrev pub unpaired_transcript : Tag → Opcode → ℕ
unpaired_transcript replace op = (op.i2 - op.i1) - (op.j2 - op.j1)
unpaired_transcript _ op = 0

abbrev pub unpaired_live : Tag → Opcode → ℕ
unpaired_live replace op = (op.j2 - op.j1) - (op.i2 - op.i1)
unpaired_live _ op = 0

-- What `compute_statistics` counts as a substitution, a deletion and an insertion.
abbrev pub substituted : Tag → Opcode → ℕ
substituted replace op = min (op.i2 - op.i1) (op.j2 - op.j1)
substituted _ op = 0

abbrev pub deleted : Tag → Opcode → ℕ
deleted delete op = op.i2 - op.i1
deleted _ op = 0

abbrev pub inserted : Tag → Opcode → ℕ
inserted insert op = op.j2 - op.j1
inserted _ op = 0

abbrev pub sum_over : (Tag → Opcode → ℕ) → List Opcode → ℕ
sum_over f [] = 0
sum_over f (op ∷ ops) = f op.tag op + sum_over f ops

-- The words that it puts into its three lists.
abbrev pub zip {ℓ} : {A : Type ℓ} → List A → List A → List (A × A)
zip [] ys = []
zip (x ∷ xs) [] = []
zip (x ∷ xs) (y ∷ ys) = (x, y) ∷ zip xs ys

abbrev pub substituted_words {ℓ} : {A : Type ℓ} → List A → List A → Tag → Opcode → List (A × A)
substituted_words a b replace op =
    zip (take (op.i2 - op.i1) (drop op.i1 a)) (take (op.j2 - op.j1) (drop op.j1 b))
substituted_words a b _ op = []

abbrev pub deleted_words {ℓ} : {A : Type ℓ} → List A → Tag → Opcode → List A
deleted_words a delete op = take (op.i2 - op.i1) (drop op.i1 a)
deleted_words a _ op = []

abbrev pub inserted_words {ℓ} : {A : Type ℓ} → List A → Tag → Opcode → List A
inserted_words b insert op = take (op.j2 - op.j1) (drop op.j1 b)
inserted_words b _ op = []

abbrev pub concat_over {ℓ} : {A : Type ℓ} → (Tag → Opcode → List A) → List Opcode → List A
concat_over f [] = []
concat_over f (op ∷ ops) = f op.tag op ++ concat_over f ops

pub length-part {ℓ} :
    {A : Type ℓ} (xs : List A) (i j : ℕ) → j ≤ length xs → length (part xs i j) ≡ j - i
length-part xs i j h = omega (arith, length-take (j - i) (drop i xs), length-drop i xs)

drop-part {ℓ} : {A : Type ℓ} (xs : List A) (i j : ℕ) → i ≤ j → drop i xs ≡ part xs i j ++ drop j xs
drop-part xs i j h =
    let e : i + (j - i) ≡ j = omega arith in
    sym (take-append-drop (j - i) (drop i xs))
    ∙ ap (λ t. part xs i j ++ t) (drop-drop i (j - i) xs ∙ ap (λ k. drop k xs) e)

module _ (a b : List Text) where
  -- Where the opcodes say that they end, the parts that are counted and those that agree or are
  -- left without a partner make up both lists.
  pub record Account (i j i' j' s d n g u v : ℕ) : Type 0 where
    pub of_a : g + s + d + u + i ≡ i'
    pub of_b : g + s + n + v + j ≡ j'

  Follows-Account :
      (i j : ℕ) (tag : Tag) (op : Opcode)
      → Follows a b i j tag op
      → Account i j op.i2 op.j2
          (substituted tag op)
          (deleted tag op)
          (inserted tag op)
          (agreed tag op)
          (unpaired_transcript tag op)
          (unpaired_live tag op)
  Follows-Account i j equal op f =
      let same : op.i2 - op.i1 ≡ op.j2 - op.j1 =
        sym (length-part a op.i1 op.i2 f.inside_a)
        ∙ ap length f.right
        ∙ length-part b op.j1 op.j2 f.inside_b in
      record {
        of_a = omega (arith, f.at_i, f.at_j, f.grows_i, f.grows_j);
        of_b = omega (arith, f.at_i, f.at_j, f.grows_i, f.grows_j);
      }
  Follows-Account i j replace op f = record {
    of_a = omega (arith, f.at_i, f.at_j, f.grows_i, f.grows_j);
    of_b = omega (arith, f.at_i, f.at_j, f.grows_i, f.grows_j);
  }
  Follows-Account i j delete op f =
      let r = f.right in
      record {
        of_a = omega (arith, f.at_i, f.at_j, f.grows_i, f.grows_j);
        of_b = omega (arith, f.at_i, f.at_j, f.grows_i, f.grows_j);
      }
  Follows-Account i j insert op f =
      let r = f.right in
      record {
        of_a = omega (arith, f.at_i, f.at_j, f.grows_i, f.grows_j);
        of_b = omega (arith, f.at_i, f.at_j, f.grows_i, f.grows_j);
      }

  pub Tiles-Account :
      (i j : ℕ) (ops : List Opcode)
      → Tiles a b i j ops
      → Account i j
          (length a)
          (length b)
          (sum_over substituted ops)
          (sum_over deleted ops)
          (sum_over inserted ops)
          (sum_over agreed ops)
          (sum_over unpaired_transcript ops)
          (sum_over unpaired_live ops)
  Tiles-Account i j [] t = record { of_a = omega (arith, t.0); of_b = omega (arith, t.1) }
  Tiles-Account i j (op ∷ ops) t =
      let r = Follows-Account i j op.tag op t.0 in
      let s = Tiles-Account op.i2 op.j2 ops t.1 in
      record { of_a = omega (arith, r.of_a, s.of_a); of_b = omega (arith, r.of_b, s.of_b) }

  -- An opcode that counts nothing is over equal parts.
  Follows-equal :
      (i j : ℕ) (tag : Tag) (op : Opcode)
      → Follows a b i j tag op
      → substituted tag op + deleted tag op + inserted tag op ≡ 0
      → part a i op.i2 ≡ part b j op.j2
  Follows-equal i j equal op f h =
      subst (λ k. part a k op.i2 ≡ part b j op.j2) f.at_i
        (subst (λ k. part a op.i1 op.i2 ≡ part b k op.j2) f.at_j f.right)
  Follows-equal i j replace op f h = absurd (let (hi, hj) = f.right in omega arith)
  Follows-equal i j delete op f h =
      let ea : op.i2 - i ≡ 0 =
        let e = f.at_i in omega (arith, f.at_i, f.at_j, f.grows_i, f.grows_j) in
      let eb : op.j2 - j ≡ 0 =
        let r = f.right in omega (arith, f.at_i, f.at_j, f.grows_i, f.grows_j) in
      rw (ea, eb) refl
  Follows-equal i j insert op f h =
      let ea : op.i2 - i ≡ 0 =
        let r = f.right in omega (arith, f.at_i, f.at_j, f.grows_i, f.grows_j) in
      let eb : op.j2 - j ≡ 0 = omega (arith, f.at_i, f.at_j, f.grows_i, f.grows_j) in
      rw (ea, eb) refl

  pub Tiles-equal :
      (i j : ℕ) (ops : List Opcode)
      → Tiles a b i j ops
      → sum_over substituted ops + sum_over deleted ops + sum_over inserted ops ≡ 0
      → drop i a ≡ drop j b
  Tiles-equal i j [] t h = rw (t.0, t.1) (drop-length a ∙ sym (drop-length b))
  Tiles-equal i j (op ∷ ops) t h =
      drop-part a i op.i2 t.0.grows_i
      ∙ ap (λ p. p ++ drop op.i2 a) (Follows-equal i j op.tag op t.0 (omega arith))
      ∙ ap (λ r. part b j op.j2 ++ r) (Tiles-equal op.i2 op.j2 ops t.1 (omega arith))
      ∙ sym (drop-part b j op.j2 t.0.grows_j)
