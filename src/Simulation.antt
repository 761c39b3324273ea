-- ===== src/Simulation.antt =====
-- simulate.py: the callback for finished packages, the choice of the audio files, and the URLs that
-- are filled in for each simulated file. The pipelines' settings, files and requests are not modelled.
mod Tests
use live_translation.Common.{
  ℕ, zero, suc, ◌-◌, ◌+◌, Bool, true, false, ◌||◌, List, [], ◌∷◌, ◌++◌, map, reverse, Option, none,
  some, length, get_elem?, set, if◌then◌else◌,
}
use live_translation.Ogg.Bytes.{bytes_eq, starts_with}
use live_translation.Ogg.Utf8.{Text}
use live_translation.Data.{AudioData, Word, TextSegment}
use live_translation.ConfirmWords.{limit}

-- How `callback` ends: it is not concerned, it prints these words, or `only_words_c` has no value.
pub data Printed : Type 0 where
  nothing unbound : Printed
  words : List Text → Printed

-- The list `result` of packages.
abbrev pub Results : Type 0 → Type 0 → Type 0
Results F A = List (AudioData F A)

abbrev pub print_words : {F : Type 0} → Option (List (Word F)) → Printed
print_words none = unbound
print_words (some confirmed_words) = words (limit 50 (map (λ w. w.word) confirmed_words))

module _ {F A : Type 0} where
  abbrev pub keep_package :
      Results F A → AudioData F A → Option (List (TextSegment F)) → Results F A × Printed
  keep_package result d none = (result, nothing)
  keep_package result d (some []) = (result, nothing)
  keep_package result d (some (segment ∷ segments)) =
      (result ++ d ∷ [], print_words d.confirmed_words)

  -- `callback`, on `dp.data`: the list `result`, and what is printed.
  unfoldable pub callback : Results F A → Option (AudioData F A) → Results F A × Printed
  callback result none = (result, nothing)
  callback result (some d) = keep_package result d d.transcribed_segments

abbrev pub audio_extensions : List Text
audio_extensions =
    (b'.' ∷ b'a' ∷ b'a' ∷ b'c' ∷ [])
    ∷ (b'.' ∷ b'a' ∷ b'c' ∷ b'3' ∷ [])
    ∷ (b'.' ∷ b'a' ∷ b'i' ∷ b'f' ∷ b'f' ∷ [])
    ∷ (b'.' ∷ b'a' ∷ b'i' ∷ b'f' ∷ [])
    ∷ (b'.' ∷ b'a' ∷ b'l' ∷ b'a' ∷ b'c' ∷ [])
    ∷ (b'.' ∷ b'a' ∷ b'm' ∷ b'r' ∷ [])
    ∷ (b'.' ∷ b'a' ∷ b'p' ∷ b'e' ∷ [])
    ∷ (b'.' ∷ b'a' ∷ b'u' ∷ [])
    ∷ (b'.' ∷ b'd' ∷ b't' ∷ b's' ∷ [])
    ∷ (b'.' ∷ b'e' ∷ b'a' ∷ b'c' ∷ b'3' ∷ [])
    ∷ (b'.' ∷ b'f' ∷ b'l' ∷ b'a' ∷ b'c' ∷ [])
    ∷ (b'.' ∷ b'm' ∷ b'4' ∷ b'a' ∷ [])
    ∷ (b'.' ∷ b'm' ∷ b'k' ∷ b'a' ∷ [])
    ∷ (b'.' ∷ b'm' ∷ b'p' ∷ b'3' ∷ [])
    ∷ (b'.' ∷ b'o' ∷ b'g' ∷ b'g' ∷ [])
    ∷ (b'.' ∷ b'o' ∷ b'p' ∷ b'u' ∷ b's' ∷ [])
    ∷ (b'.' ∷ b'r' ∷ b'a' ∷ [])
    ∷ (b'.' ∷ b'r' ∷ b'm' ∷ [])
    ∷ (b'.' ∷ b't' ∷ b't' ∷ b'a' ∷ [])
    ∷ (b'.' ∷ b'v' ∷ b'o' ∷ b'c' ∷ [])
    ∷ (b'.' ∷ b'w' ∷ b'a' ∷ b'v' ∷ [])
    ∷ (b'.' ∷ b'w' ∷ b'm' ∷ b'a' ∷ [])
    ∷ (b'.' ∷ b'w' ∷ b'v' ∷ [])
    ∷ (b'.' ∷ b'c' ∷ b'a' ∷ b'f' ∷ [])
    ∷ (b'.' ∷ b'g' ∷ b's' ∷ b'm' ∷ [])
    ∷ (b'.' ∷ b'm' ∷ b'p' ∷ b'2' ∷ [])
    ∷ (b'.' ∷ b's' ∷ b'p' ∷ b'x' ∷ [])
    ∷ (b'.' ∷ b'a' ∷ b'o' ∷ b'b' ∷ [])
    ∷ []

-- `name.endswith(ext)`
abbrev pub ends_with : Text → Text → Bool
ends_with name ext = starts_with (reverse name) (reverse ext)

-- `any(folder_name.endswith(ext) for ext in audio_extensions)`
unfoldable pub is_audio : List Text → Text → Bool
is_audio [] folder_name = false
is_audio (ext ∷ exts) folder_name = ends_with folder_name ext || is_audio exts folder_name

-- The entries of the dict `query` that `main` writes.
pub record Query : Type 0 where
  pub query : Text
  pub start : Text
  pub end : Text

-- A `Prometheus_URL`; its dict is an index of the store, so that copies can share it.
pub record PrometheusUrl : Type 0 where
  pub path : Text
  pub query : ℕ

-- `copy.copy(self)`: the same dict.
abbrev pub copy : PrometheusUrl → PrometheusUrl
copy url = url

-- `text.replace(old, new)` for an `old` that is not empty, past the characters still to be skipped.
unfoldable pub replace_from : ℕ → Text → Text → Text → Text
replace_from skipped old new [] = []
replace_from zero old new (c ∷ cs) =
    if starts_with (c ∷ cs) old
    then new ++ replace_from (length old - 1) old new cs
    else c ∷ replace_from 0 old new cs
replace_from (suc skipped) old new (c ∷ cs) = replace_from skipped old new cs

-- "PIPELINEID"
abbrev pub pipeline_mark : Text
pipeline_mark = b'P' ∷ b'I' ∷ b'P' ∷ b'E' ∷ b'L' ∷ b'I' ∷ b'N' ∷ b'E' ∷ b'I' ∷ b'D' ∷ []

abbrev pub graph_path : Text
graph_path = b'/' ∷ b'g' ∷ b'r' ∷ b'a' ∷ b'p' ∷ b'h' ∷ []

abbrev pub stats_path : Text
stats_path = b'/' ∷ b's' ∷ b't' ∷ b'a' ∷ b't' ∷ b's' ∷ []

unfoldable pub fill_query : Text → Text → Text → Query → Query
unfolding replace_from
fill_query pipeline_id start end q = record {
  query = replace_from 0 pipeline_mark pipeline_id q.query;
  start = start;
  end = end;
}

-- What the loop over the URLs does with the dict of one, before its request.
unfoldable pub fill_url : Text → Text → Text → List Query → PrometheusUrl → List Query
unfolding fill_query
fill_url pipeline_id start end store url =
    let url_copy = copy url in
    if bytes_eq url_copy.path graph_path || bytes_eq url_copy.path stats_path
    then (elim (get_elem? store url_copy.query) [
      | none ↦ store
      | some q ↦ set store url_copy.query (fill_query pipeline_id start end q)
    ])
    else store

-- The loop over the URLs, from the index `i`, without those whose graph is there already.
unfoldable pub fill_urls :
    Text → Text → Text → (ℕ → Bool) → ℕ → List PrometheusUrl → List Query → List Query
unfolding fill_url
fill_urls pipeline_id start end is_saved i [] store = store
fill_urls pipeline_id start end is_saved i (url ∷ urls) store =
    let filled = if is_saved i then store else fill_url pipeline_id start end store url in
    fill_urls pipeline_id start end is_saved (i + 1) urls filled
