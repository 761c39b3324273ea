-- ===== src/Logger/Format.antt =====
-- The two JSON formatters of logger.py, up to the tree that `json.dumps` writes.
use live_translation.Common.{
  ℕ, Bool, true, false, ◌&&◌, not, List, [], ◌∷◌, none, some, if◌then◌else◌,
}
use live_translation.Common.Result.{Result, ok, err, ◌>>=◌}
use live_translation.Ogg.Bytes.{bytes_eq}
use live_translation.Ogg.Utf8.{Text}
use live_translation.Logger.{
  Value, text, object, exception, dict, sequence, set, convertible, Entries, no_entries, entry,
  Python, truncate_dict, FormatError, invalid_value, duplicate_key,
}

-- `LOG_RECORD_BUILTIN_ATTRS`
abbrev pub builtin_attrs : List Text
builtin_attrs =
    (b'a' ∷ b'r' ∷ b'g' ∷ b's' ∷ [])
    ∷ (b'a' ∷ b's' ∷ b'c' ∷ b't' ∷ b'i' ∷ b'm' ∷ b'e' ∷ [])
    ∷ (b'c' ∷ b'r' ∷ b'e' ∷ b'a' ∷ b't' ∷ b'e' ∷ b'd' ∷ [])
    ∷ (b'e' ∷ b'x' ∷ b'c' ∷ b'_' ∷ b'i' ∷ b'n' ∷ b'f' ∷ b'o' ∷ [])
    ∷ (b'e' ∷ b'x' ∷ b'c' ∷ b'_' ∷ b't' ∷ b'e' ∷ b'x' ∷ b't' ∷ [])
    ∷ (b'e' ∷ b'x' ∷ b't' ∷ b'r' ∷ b'a' ∷ [])
    ∷ (b'f' ∷ b'i' ∷ b'l' ∷ b'e' ∷ b'n' ∷ b'a' ∷ b'm' ∷ b'e' ∷ [])
    ∷ (b'f' ∷ b'u' ∷ b'n' ∷ b'c' ∷ b'N' ∷ b'a' ∷ b'm' ∷ b'e' ∷ [])
    ∷ (b'l' ∷ b'e' ∷ b'v' ∷ b'e' ∷ b'l' ∷ b'n' ∷ b'a' ∷ b'm' ∷ b'e' ∷ [])
    ∷ (b'l' ∷ b'e' ∷ b'v' ∷ b'e' ∷ b'l' ∷ b'n' ∷ b'o' ∷ [])
    ∷ (b'l' ∷ b'i' ∷ b'n' ∷ b'e' ∷ b'n' ∷ b'o' ∷ [])
    ∷ (b'm' ∷ b'o' ∷ b'd' ∷ b'u' ∷ b'l' ∷ b'e' ∷ [])
    ∷ (b'm' ∷ b's' ∷ b'e' ∷ b'c' ∷ b's' ∷ [])
    ∷ (b'm' ∷ b'e' ∷ b's' ∷ b's' ∷ b'a' ∷ b'g' ∷ b'e' ∷ [])
    ∷ (b'm' ∷ b's' ∷ b'g' ∷ [])
    ∷ (b'n' ∷ b'a' ∷ b'm' ∷ b'e' ∷ [])
    ∷ (b'p' ∷ b'a' ∷ b't' ∷ b'h' ∷ b'n' ∷ b'a' ∷ b'm' ∷ b'e' ∷ [])
    ∷ (b'p' ∷ b'r' ∷ b'o' ∷ b'c' ∷ b'e' ∷ b's' ∷ b's' ∷ [])
    ∷ (b'p' ∷ b'r' ∷ b'o' ∷ b'c' ∷ b'e' ∷ b's' ∷ b's' ∷ b'N' ∷ b'a' ∷ b'm' ∷ b'e' ∷ [])
    ∷ (b'r' ∷ b'e' ∷ b'l' ∷ b'a' ∷ b't' ∷ b'i' ∷ b'v' ∷ b'e' ∷ b'C' ∷ b'r' ∷ b'e' ∷ b'a' ∷ b't'
        ∷ b'e' ∷ b'd' ∷ [])
    ∷ (b's' ∷ b't' ∷ b'a' ∷ b'c' ∷ b'k' ∷ b'_' ∷ b'i' ∷ b'n' ∷ b'f' ∷ b'o' ∷ [])
    ∷ (b't' ∷ b'h' ∷ b'r' ∷ b'e' ∷ b'a' ∷ b'd' ∷ [])
    ∷ (b't' ∷ b'h' ∷ b'r' ∷ b'e' ∷ b'a' ∷ b'd' ∷ b'N' ∷ b'a' ∷ b'm' ∷ b'e' ∷ [])
    ∷ (b't' ∷ b'a' ∷ b's' ∷ b'k' ∷ b'N' ∷ b'a' ∷ b'm' ∷ b'e' ∷ [])
    ∷ []

abbrev pub is_in : Text → List Text → Bool
is_in name [] = false
is_in name (x ∷ xs) = let later = is_in name xs in if bytes_eq name x then true else later

-- A dict of Python with texts as keys: `key in d`, `d[key] = value`, and `getattr(d, key, default)`
-- for the attributes of a record.
abbrev pub has_entry : Text → Entries → Bool
has_entry key no_entries = false
has_entry key (entry key' v entries) =
    let later = has_entry key entries in if bytes_eq key' key then true else later

abbrev pub set_entry : Text → Value → Entries → Entries
set_entry key value no_entries = entry key value no_entries
set_entry key value (entry key' v entries) =
    let later = set_entry key value entries in
    if bytes_eq key' key then entry key' value entries else entry key' v later

abbrev pub get_entry : Text → Value → Entries → Value
get_entry key default no_entries = default
get_entry key default (entry key' v entries) =
    let later = get_entry key default entries in if bytes_eq key' key then v else later

-- The names that the formatters look for.
abbrev pub asctime : Text
asctime = b'a' ∷ b's' ∷ b'c' ∷ b't' ∷ b'i' ∷ b'm' ∷ b'e' ∷ []

abbrev pub extra_name : Text
extra_name = b'e' ∷ b'x' ∷ b't' ∷ b'r' ∷ b'a' ∷ []

abbrev pub message_name : Text
message_name = b'm' ∷ b'e' ∷ b's' ∷ b's' ∷ b'a' ∷ b'g' ∷ b'e' ∷ []

abbrev pub msg_name : Text
msg_name = b'm' ∷ b's' ∷ b'g' ∷ []

module _ (p : Python) (record_attrs : Entries) where
  -- What the formatter writes for one of its keys.
  abbrev pub value_of : Text → Value
  value_of name =
      if bytes_eq name asctime then text p.format_time else get_entry name p.none_value record_attrs

  -- The loop over `fmt_keys`.
  unfoldable pub add_keys : List (Text × Text) → Entries → Result FormatError Entries
  add_keys [] log_record = ok log_record
  add_keys ((key, name) ∷ fmt_keys) log_record =
      if not (is_in name builtin_attrs)
      then err (invalid_value name)
      else if has_entry key log_record
      then err (duplicate_key key)
      else add_keys fmt_keys (set_entry key (value_of name) log_record)

  -- The loop over the attributes of the record: each one that is no built-in replaces `extra`.
  unfoldable pub add_extra : Entries → Entries → Entries
  add_extra no_entries log_record = log_record
  add_extra (entry key value attrs) log_record =
      if is_in key builtin_attrs
      then add_extra attrs log_record
      else add_extra attrs (set_entry extra_name (dict (entry key value no_entries)) log_record)

  abbrev pub names_of : List (Text × Text) → List Text
  names_of [] = []
  names_of ((key, name) ∷ fmt_keys) = name ∷ names_of fmt_keys

  unfoldable pub with_extra : List (Text × Text) → Entries → Entries
  unfolding add_extra
  with_extra fmt_keys log_record =
      if is_in extra_name (names_of fmt_keys) then add_extra record_attrs log_record else log_record

  -- `MyJSONFormatter.format`, up to `json.dumps`.
  unfoldable pub format : ℕ → List (Text × Text) → Result FormatError Value
  unfolding add_keys with_extra truncate_dict
  format max_length fmt_keys = do
    log_record ← add_keys fmt_keys no_entries
    truncate_dict p max_length (dict (with_extra fmt_keys log_record))

  -- `key.startswith('_')`
  abbrev pub is_hidden : Text → Bool
  is_hidden [] = false
  is_hidden (c ∷ cs) = bytes_eq (c ∷ []) (b'_' ∷ [])

  -- An extra value: by `to_dict`, or read from JSON where it is a text that can be read.
  unfoldable pub expanded : Value → Value
  expanded (convertible v) = v
  expanded (text t) = elim (p.loads t) [ none ↦ text t | some v ↦ v ]
  expanded (object n) = object n
  expanded (exception n) = exception n
  expanded (dict entries) = dict entries
  expanded (sequence items) = sequence items
  expanded (set items) = set items

  unfoldable pub extras : Entries → Entries
  unfolding expanded
  extras no_entries = no_entries
  extras (entry key value attrs) =
      let later = extras attrs in
      if not (is_in key builtin_attrs) && not (is_hidden key)
      then entry key (expanded value) later
      else later

  -- `if extra: log_record["extra"] = extra`
  abbrev pub extra_entry : Entries → Entries
  extra_entry no_entries = no_entries
  extra_entry (entry key value entries) =
      entry extra_name (dict (entry key value entries)) no_entries

  -- `SimpleJSONFormatter.format`, up to `json.dumps`.
  unfoldable pub simple_format : ℕ → Result FormatError Value
  unfolding extras truncate_dict
  simple_format max_length =
      let extra = extras record_attrs in
      let msg = get_entry msg_name p.none_value record_attrs in
      truncate_dict p max_length (dict (entry message_name msg (extra_entry extra)))
