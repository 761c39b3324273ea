-- ===== src/Logger.antt =====
-- logger.py: the truncation of log data; the two formatters are in Logger.Format. `str`, `json.loads`,
-- the text of the time and the making of a set are parameters.
pub mod Short
pub mod Format
mod Tests
use live_translation.Common.{
  ℕ, ◌+◌, Bool, true, false, ◌&&◌, not, List, [], ◌∷◌, ◌++◌, Option, none, some, length, ltb, take,
  if◌then◌else◌,
}
use live_translation.Common.Result.{Result, ok, err, ◌>>=◌}
use live_translation.Ogg.Bytes.{bytes_eq}
use live_translation.Ogg.Utf8.{Text}

-- A Python value as the truncation sees it: a text, another object, an exception, a dict, a list or
-- tuple, a set, and an object whose `to_dict()` is the value given.
mutual
  pub data Value : Type 0 where
    text : Text → Value
    object exception : ℕ → Value
    dict : Entries → Value
    sequence set : Items → Value
    convertible : Value → Value

  pub data Items : Type 0 where
    no_items : Items
    item : Value → Items → Items

  pub data Entries : Type 0 where
    no_entries : Entries
    entry : Text → Value → Entries → Entries

-- `value_str[:max_length] + '...'` for a text that is too long, where there is a limit.
unfoldable pub cut : ℕ → Text → Text
cut max_length value_str =
    if ltb 0 max_length && ltb max_length (length value_str)
    then take max_length value_str ++ b'.' ∷ b'.' ∷ b'.' ∷ []
    else value_str

-- The two `ValueError`s of `MyJSONFormatter.format`, and the `TypeError` of an item that cannot be in a
-- set.
pub data FormatError : Type 0 where
  invalid_value duplicate_key : Text → FormatError
  unhashable : FormatError

-- `str` of an object and of an exception, `json.loads` of a text (`none` if it raises), `set` of items
-- (`none` if it raises), the value None, and `formatTime`.
pub record Python : Type 0 where
  pub str : ℕ → Text
  pub loads : Text → Option Value
  pub set_of : Items → Option Value
  pub none_value : Value
  pub format_time : Text

abbrev pub made : Option Value → Result FormatError Value
made none = err unhashable
made (some v) = ok v

module _ (p : Python) where
  -- The clauses for the leaves are those of `truncate_value` that `truncate_dict` can reach.
  unfoldable mutual
    unfolding cut

    pub truncate_dict : ℕ → Value → Result FormatError Value
    truncate_dict max_length (text t) = ok (text (cut max_length t))
    truncate_dict max_length (object n) = ok (text (cut max_length (p.str n)))
    truncate_dict max_length (exception n) = ok (text (p.str n))
    truncate_dict max_length (dict entries) = do
      truncated ← truncate_entries max_length entries
      ok (dict truncated)
    truncate_dict max_length (sequence items) = do
      truncated ← truncate_items max_length items
      ok (sequence truncated)
    truncate_dict max_length (set items) = do
      truncated ← truncate_items max_length items
      made (p.set_of truncated)
    truncate_dict max_length (convertible v) = truncate_dict max_length v

    pub truncate_items : ℕ → Items → Result FormatError Items
    truncate_items max_length no_items = ok no_items
    truncate_items max_length (item v items) = do
      truncated ← truncate_dict max_length v
      others ← truncate_items max_length items
      ok (item truncated others)

    pub truncate_entries : ℕ → Entries → Result FormatError Entries
    truncate_entries max_length no_entries = ok no_entries
    truncate_entries max_length (entry key v entries) = do
      truncated ← truncate_dict max_length v
      others ← truncate_entries max_length entries
      ok (entry key truncated others)
