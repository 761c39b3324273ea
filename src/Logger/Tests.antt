-- ===== src/Logger/Tests.antt =====
-- Tests of the log formatters, and the theorem about truncation at a concrete dict.
use live_translation.Common.{◌≡◌, refl, [], ◌∷◌, none, some, arith}
use live_translation.Common.Result.{ok}
use live_translation.Ogg.Utf8.{Text}
use live_translation.Logger.{
  Value, text, object, dict, sequence, set, convertible, item, no_items, entry, no_entries, Entries,
  Python, truncate_dict, cut,
}
use live_translation.Logger.Format.{
  format, add_keys, with_extra, add_extra, simple_format, extras, expanded, extra_name, msg_name,
  message_name,
}
use live_translation.Logger.Short.{IsCut, truncate_dict-IsCut}

-- Every object reads "none", and no text is JSON.
abbrev python : Python
python = record {
  str = λ n. b'n' ∷ b'o' ∷ b'n' ∷ b'e' ∷ [];
  loads = λ t. none;
  set_of = λ items. some (set items);
  none_value = object 0;
  format_time = [];
}

abbrev key_a : Text
key_a = b'a' ∷ []

abbrev key_b : Text
key_b = b'b' ∷ []

abbrev logged : Value
logged = dict (
    entry key_a (text (1 ∷ 2 ∷ 3 ∷ 4 ∷ [])) (
      entry key_b (sequence (item (convertible (object 5)) (item (text (1 ∷ [])) no_items)))
        no_entries))

truncate_dict-IsCut_example : IsCut python 2 (omega arith) logged
truncate_dict-IsCut_example =
    truncate_dict-IsCut python 2 (omega arith) logged (tt, ((tt, (tt, tt)), tt))

-- A record with the message "m" and the two extra attributes a and b.
abbrev attributes : Entries
attributes =
    entry msg_name (text (b'm' ∷ [])) (entry key_a (object 1) (entry key_b (object 2) no_entries))

-- Of the two extra attributes only the last one is written.
format-last_extra :
    format python attributes 0 ((msg_name, msg_name) ∷ (extra_name, extra_name) ∷ [])
    ≡ ok (
        dict (
          entry msg_name
            (text (b'm' ∷ []))
            (entry extra_name (dict (entry key_b (text (python.str 2)) no_entries)) no_entries)))
unfolding format add_keys with_extra add_extra truncate_dict cut
format-last_extra = refl

simple_format-both :
    simple_format python attributes 0
    ≡ ok (
        dict (
          entry message_name (text (b'm' ∷ [])) (
            entry extra_name
              (dict
                (entry key_a (text (python.str 1)) (entry key_b (text (python.str 2)) no_entries)))
              no_entries)))
unfolding simple_format extras expanded truncate_dict cut
simple_format-both = refl
