-- ===== src/Common/Dict.antt =====
-- A dict of Python whose keys are numbers. The entries stand in the order in which their keys came
-- in, and a key stands in one entry at most.
use live_translation.Common.{
  ℕ, ◌≡◌, sym, subst, ◌∙◌, Option, none, some, List, [], ◌∷◌, arith, ◌==◌, ◌≢◌, refl, Bool-cases,
  inl, inr, if◌then◌else◌,
}

abbrev pub Dict {ℓ} : Type ℓ → Type ℓ
Dict Value = List (ℕ × Value)

-- `d.pop(key, None)`
abbrev pub erase {ℓ} : {Value : Type ℓ} → ℕ → Dict Value → Dict Value
erase key [] = []
erase key (entry ∷ others) =
    let kept = erase key others in if key == entry.0 then others else entry ∷ kept

-- `d.get(key)`
abbrev pub lookup {ℓ} : {Value : Type ℓ} → ℕ → Dict Value → Option Value
lookup key [] = none
lookup key (entry ∷ others) =
    let later = lookup key others in if key == entry.0 then some entry.1 else later

-- `d[key] = value`: a key that is there keeps its place.
abbrev pub insert {ℓ} : {Value : Type ℓ} → ℕ → Value → Dict Value → Dict Value
insert key value [] = (key, value) ∷ []
insert key value (entry ∷ others) =
    let later = insert key value others in
    if key == entry.0 then (key, value) ∷ others else entry ∷ later

pub lookup-insert_self {ℓ} :
    {Value : Type ℓ} (key : ℕ) (value : Value) (d : Dict Value)
    → lookup key (insert key value d) ≡ some value
lookup-insert_self key value [] = ground arith
lookup-insert_self key value (entry ∷ others) = ground (arith, lookup-insert_self key value others)

pub lookup-insert_ne {ℓ} :
    {Value : Type ℓ} (key other : ℕ) (value : Value) (d : Dict Value)
    → key ≢ other
    → lookup other (insert key value d) ≡ lookup other d
lookup-insert_ne key other value [] h = ground arith
lookup-insert_ne key other value (entry ∷ others) h =
    ground (arith, lookup-insert_ne key other value others h)

pub lookup-erase_ne {ℓ} :
    {Value : Type ℓ} (key other : ℕ) (d : Dict Value)
    → key ≢ other
    → lookup other (erase key d) ≡ lookup other d
lookup-erase_ne key other [] h = refl
lookup-erase_ne key other (entry ∷ others) h = ground (arith, lookup-erase_ne key other others h)

-- A key stands in one entry at most.
abbrev pub AreUnique {ℓ} : {Value : Type ℓ} → Dict Value → Type ℓ
AreUnique [] = Unit {ℓ}
AreUnique (entry ∷ others) = (lookup entry.0 others ≡ none) × AreUnique others

pub lookup-erase_self {ℓ} :
    {Value : Type ℓ} (key : ℕ) (d : Dict Value) → AreUnique d → lookup key (erase key d) ≡ none
lookup-erase_self key [] u = refl
lookup-erase_self key (entry ∷ others) u = ground (arith, lookup-erase_self key others u.1)

pub insert-AreUnique {ℓ} :
    {Value : Type ℓ} (key : ℕ) (value : Value) (d : Dict Value)
    → AreUnique d
    → AreUnique (insert key value d)
insert-AreUnique key value [] u = (refl, tt)
insert-AreUnique key value (entry ∷ others) u = elim (Bool-cases (key == entry.0)) [
  | inl same ↦
      let e : key ≡ entry.0 = ground arith in
      rw same (subst (λ k. lookup k others ≡ none) (sym e) u.0, u.1)
  | inr other ↦
      let apart : key ≢ entry.0 = ground arith in
      rw other (
        lookup-insert_ne key entry.0 value others apart ∙ u.0,
        insert-AreUnique key value others u.1,
      )
]

pub erase-AreUnique {ℓ} :
    {Value : Type ℓ} (key : ℕ) (d : Dict Value) → AreUnique d → AreUnique (erase key d)
erase-AreUnique key [] u = u
erase-AreUnique key (entry ∷ others) u = elim (Bool-cases (key == entry.0)) [
  | inl same ↦ rw same u.1
  | inr other ↦
      let apart : key ≢ entry.0 = ground arith in
      rw other (lookup-erase_ne key entry.0 others apart ∙ u.0, erase-AreUnique key others u.1)
]
