-- ===== src/Logger/Short.antt =====
-- How long the texts of a truncated log record are.
use live_translation.Common.{
  ℕ, ◌+◌, ◌≤◌, ◌<◌, ◌≡◌, refl, ap, true, ◌&&◌, [], ◌∷◌, ◌++◌, length, ltb, take, arith,
  length-append, length-take, Bool-cases, inl, inr,
}
use live_translation.Common.Result.{ok}
use live_translation.Ogg.Utf8.{Text}
use live_translation.Ogg.Bytes.{take-append}
use live_translation.Logger.{
  Value, text, object, exception, dict, sequence, set, convertible, Items, no_items, item, Entries,
  no_entries, entry, cut, Python, truncate_dict, truncate_items, truncate_entries,
}

-- No exception and no set is anywhere in it; the truncation keeps the text of an exception whole.
abbrev mutual
  pub IsPlain : Value → Type 0
  IsPlain (text t) = Unit {0}
  IsPlain (object n) = Unit {0}
  IsPlain (exception n) = ⊥
  IsPlain (dict entries) = EntriesArePlain entries
  IsPlain (sequence items) = ItemsArePlain items
  IsPlain (set items) = ⊥
  IsPlain (convertible v) = IsPlain v

  pub ItemsArePlain : Items → Type 0
  ItemsArePlain no_items = Unit {0}
  ItemsArePlain (item v items) = IsPlain v × ItemsArePlain items

  pub EntriesArePlain : Entries → Type 0
  EntriesArePlain no_entries = Unit {0}
  EntriesArePlain (entry key v entries) = IsPlain v × EntriesArePlain entries

-- Only texts, dicts, lists and tuples, and no text but a key is longer than `n`.
abbrev mutual
  pub IsShort : ℕ → Value → Type 0
  IsShort n (text t) = length t ≤ n
  IsShort n (object m) = ⊥
  IsShort n (exception m) = ⊥
  IsShort n (dict entries) = EntriesAreShort n entries
  IsShort n (sequence items) = ItemsAreShort n items
  IsShort n (set items) = ⊥
  IsShort n (convertible v) = ⊥

  pub ItemsAreShort : ℕ → Items → Type 0
  ItemsAreShort n no_items = Unit {0}
  ItemsAreShort n (item v items) = IsShort n v × ItemsAreShort n items

  pub EntriesAreShort : ℕ → Entries → Type 0
  EntriesAreShort n no_entries = Unit {0}
  EntriesAreShort n (entry key v entries) = IsShort n v × EntriesAreShort n entries

length-cut : (n : ℕ) (t : Text) → 0 < n → length (cut n t) ≤ n + 3
unfolding cut
length-cut n t h = elim (Bool-cases (ltb 0 n && ltb n (length t))) [
  | inl long ↦ rw long (
      let dots = length-append (take n t) (b'.' ∷ b'.' ∷ b'.' ∷ []) in
      omega (arith, dots, length-take n t))
  | inr short ↦ rw short (ground arith)
]

-- Cutting a text that is cut already changes nothing.
cut-cut : (n : ℕ) (t : Text) → cut n (cut n t) ≡ cut n t
unfolding cut
cut-cut n t = elim (Bool-cases (ltb 0 n && ltb n (length t))) [
  | inl long ↦
      let dots : Text = b'.' ∷ b'.' ∷ b'.' ∷ [] in
      let sum = length-append (take n t) dots in
      let whole : n ≡ length (take n t) = ground (arith, length-take n t) in
      let again : (ltb 0 n && ltb n (length (take n t ++ dots))) ≡ true =
        ground (arith, sum, whole) in
      rw (long, again, take-append n (take n t) dots whole) refl
  | inr short ↦ rw (short, short) refl
]

module _ (p : Python) (n : ℕ) (limited : 0 < n) where
  -- The value that the truncation makes is short, and is kept by truncating it again.
  pub record IsCut (v : Value) : Type 0 where
    pub result : Value
    pub truncated : truncate_dict p n v ≡ ok result
    pub short : IsShort (n + 3) result
    pub again : truncate_dict p n result ≡ ok result

  record ItemsAreCut (items : Items) : Type 0 where
    result : Items
    truncated : truncate_items p n items ≡ ok result
    short : ItemsAreShort (n + 3) result
    again : truncate_items p n result ≡ ok result

  record EntriesAreCut (entries : Entries) : Type 0 where
    result : Entries
    truncated : truncate_entries p n entries ≡ ok result
    short : EntriesAreShort (n + 3) result
    again : truncate_entries p n result ≡ ok result

  mutual
    unfolding truncate_dict

    truncate_dict-IsCut_only : (v : Value) → IsPlain v → IsCut v
    truncate_dict-IsCut_only (text t) h = record {
      result = text (cut n t);
      truncated = refl;
      short = length-cut n t limited;
      again = ap (λ u. ok (text u)) (cut-cut n t);
    }
    truncate_dict-IsCut_only (object m) h = record {
      result = text (cut n (p.str m));
      truncated = refl;
      short = length-cut n (p.str m) limited;
      again = ap (λ u. ok (text u)) (cut-cut n (p.str m));
    }
    truncate_dict-IsCut_only (exception m) h = absurd h
    truncate_dict-IsCut_only (dict entries) h =
        let r = truncate_entries-AreCut entries h in
        record {
          result = dict r.result;
          truncated = rw r.truncated refl;
          short = r.short;
          again = rw r.again refl;
        }
    truncate_dict-IsCut_only (sequence items) h =
        let r = truncate_items-AreCut items h in
        record {
          result = sequence r.result;
          truncated = rw r.truncated refl;
          short = r.short;
          again = rw r.again refl;
        }
    truncate_dict-IsCut_only (set items) h = absurd h
    truncate_dict-IsCut_only (convertible v) h =
        let r = truncate_dict-IsCut_only v h in
        record { result = r.result; truncated = r.truncated; short = r.short; again = r.again }

    truncate_items-AreCut : (items : Items) → ItemsArePlain items → ItemsAreCut items
    truncate_items-AreCut no_items h = record {
      result = no_items;
      truncated = refl;
      short = tt;
      again = refl;
    }
    truncate_items-AreCut (item v items) h =
        let r = truncate_dict-IsCut_only v h.0 in
        let rs = truncate_items-AreCut items h.1 in
        record {
          result = item r.result rs.result;
          truncated = rw (r.truncated, rs.truncated) refl;
          short = (r.short, rs.short);
          again = rw (r.again, rs.again) refl;
        }

    truncate_entries-AreCut : (entries : Entries) → EntriesArePlain entries → EntriesAreCut entries
    truncate_entries-AreCut no_entries h = record {
      result = no_entries;
      truncated = refl;
      short = tt;
      again = refl;
    }
    truncate_entries-AreCut (entry key v entries) h =
        let r = truncate_dict-IsCut_only v h.0 in
        let rs = truncate_entries-AreCut entries h.1 in
        record {
          result = entry key r.result rs.result;
          truncated = rw (r.truncated, rs.truncated) refl;
          short = (r.short, rs.short);
          again = rw (r.again, rs.again) refl;
        }

  -- With a limit, data of texts, dicts, lists, tuples and other objects, in which no exception and
  -- no set stands, is truncated without an exception to texts, dicts, lists and tuples only, where
  -- no text but a key has more than three characters beyond the limit, and truncating the result
  -- again changes nothing.
  pub truncate_dict-IsCut : (v : Value) → IsPlain v → IsCut v
  truncate_dict-IsCut v h = truncate_dict-IsCut_only v h
