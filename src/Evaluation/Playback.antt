-- ===== src/Evaluation/Playback.antt =====
-- `simulate_live_audio_stream` of simulate_live_audio_stream.py: what is handed to the callback, and
-- how long it sleeps. A time is a float, as in ogg.py; whether
-- `time.sleep` takes so long a time is a parameter.
pub mod Complete
use live_translation.Common.{
  ℕ, ◌+◌, Bool, true, false, not, Option, none, some, List, [], ◌∷◌, if◌then◌else◌,
}
use live_translation.Common.Int.{ℤ}
use live_translation.Common.Float.{Floats}
use live_translation.Common.Result.{Result, ok, err}
use live_translation.Ogg.Bytes.{Bytes, Error}
use live_translation.Ogg.Page.{Page}
use live_translation.Ogg.IdHeader.{IdHeader}
use live_translation.Ogg.Audio.{Audio, open_audio, calculate_page_duration}

-- What the function does while it runs.
pub data Action : Type 0 where
  sent : Bytes → Action
  slept : ℤ → Action

-- How it ends. `time.sleep` raises a `ValueError` for a negative time, and an
-- `OverflowError` for one that is too long.
pub data Ending : Type 0 where
  returned no_id_header negative_sleep long_sleep : Ending
  failed : Error → Ending

abbrev pub Run : Type 0
Run = List Action × Ending

abbrev pub before : Action → Run → Run
before action (actions, ending) = (action ∷ actions, ending)

module _ (o : Floats ℤ) (can_sleep : ℤ → Bool) where
  unfoldable pub sleep : ℤ → Run → Run
  sleep duration rest =
      if o.flt duration o.fzero
      then ([], negative_sleep)
      else if not (can_sleep duration)
      then ([], long_sleep)
      else before (slept duration) rest

  unfoldable pub play_page : Page → Result Error ℤ → Run → Run
  unfolding sleep
  play_page page (err e) rest = ([], failed e)
  play_page page (ok page_duration) rest = before (sent page.raw_data) (sleep page_duration rest)

  -- The loop over the pages.
  unfoldable pub play : ℕ → Option ℕ → List Page → Run
  unfolding play_page
  play sample_rate previous_granule_position [] = ([], returned)
  play sample_rate previous_granule_position (page ∷ pages) =
      play_page page
        (calculate_page_duration o page.granule_position previous_granule_position sample_rate)
        (play sample_rate (some page.granule_position) pages)

  unfoldable pub play_audio : Audio → Option IdHeader → Run
  unfolding play
  play_audio audio none = ([], no_id_header)
  play_audio audio (some id_header_page) = play id_header_page.input_sample_rate none audio.pages

  unfoldable pub play_opened : Result Error Audio → Run
  unfolding play_audio
  play_opened (err e) = ([], failed e)
  play_opened (ok audio) = play_audio audio audio.id_header

  -- On the bytes of the file.
  unfoldable pub simulate_live_audio_stream : Bytes → Run
  unfolding play_opened
  simulate_live_audio_stream ogg_bytes = play_opened (open_audio o ogg_bytes)
