-- ===== src/Simulation/Tests.antt =====
-- Tests of simulate.py.
use live_translation.Common.{ℕ, ◌≡◌, refl, true, false, List, [], ◌∷◌, none, some}
use live_translation.Data.{AudioData, TextSegment}
use live_translation.Simulation.{
  callback, unbound, audio_extensions, is_audio, Query, PrometheusUrl, pipeline_mark, graph_path,
  fill_urls, fill_url, fill_query, replace_from,
}

abbrev segment : TextSegment ℕ
segment = record { text = []; start = 0; end = 1; words = none; probability = none }

-- A package with segments that no module has confirmed words for.
abbrev unconfirmed : AudioData ℕ ℕ
unconfirmed = record {
  raw_audio_data = [];
  audio_buffer = none;
  audio_buffer_time = none;
  audio_buffer_start_after = none;
  audio_data = none;
  audio_data_sample_rate = none;
  vad_result = none;
  language = none;
  transcribed_segments = some (segment ∷ []);
  confirmed_words = none;
  unconfirmed_words = none;
  translations = none;
}

callback-unbound : (callback {F = ℕ} {A = ℕ} [] (some unconfirmed)).1 ≡ unbound
unfolding callback
callback-unbound = refl

is_audio-ogg : is_audio audio_extensions (b'a' ∷ b'.' ∷ b'o' ∷ b'g' ∷ b'g' ∷ []) ≡ true
unfolding is_audio
is_audio-ogg = refl

is_audio-txt : is_audio audio_extensions (b'a' ∷ b'.' ∷ b't' ∷ b'x' ∷ b't' ∷ []) ≡ false
unfolding is_audio
is_audio-txt = refl

abbrev url : PrometheusUrl
url = record { path = graph_path; query = 0 }

abbrev store : List Query
store = record { query = pipeline_mark; start = []; end = [] } ∷ []

-- A second file is filled in with its own times, though the first one has been filled into the dict
-- that its copy shares: the mark is gone, but the id of the pipeline is the same.
fill_urls-shared :
    fill_urls
      (49 ∷ [])
      (2 ∷ [])
      (2 ∷ [])
      (λ i. false)
      0
      (url ∷ [])
      (fill_urls (49 ∷ []) (1 ∷ []) (1 ∷ []) (λ i. false) 0 (url ∷ []) store)
    ≡ record { query = 49 ∷ []; start = 2 ∷ []; end = 2 ∷ [] } ∷ []
unfolding fill_urls fill_url fill_query replace_from
fill_urls-shared = refl
