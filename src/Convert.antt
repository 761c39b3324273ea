-- ===== src/Convert.antt =====
-- m_convert_audio.py. The program ffmpeg (exit code and standard output, for the sample rate asked of
-- it) and numpy's reading of its samples are parameters.
use live_translation.Common.{ℕ, not, [], ◌∷◌, Option, none, some, ◌==◌, if◌then◌else◌}
use live_translation.Ogg.Bytes.{Bytes}
use live_translation.Data.{AudioData, Outcome, passed, raised, no_audio_data, conversion_failed}

-- `np.frombuffer(out, np.int16)` and the rest of that line may raise.
pub record Converter (A : Type 0) : Type 0 where
  pub convert_sample_rate : ℕ
  pub ffmpeg : ℕ → Bytes → ℕ × Bytes
  pub waveform : Bytes → Option A

module _ {A : Type 0} (c : Converter A) where
  -- `none` where it raises.
  unfoldable pub load_audio_from_binary : Bytes → Option A
  load_audio_from_binary audio_bytes =
      let (returncode, out) = c.ffmpeg c.convert_sample_rate audio_bytes in
      if not (returncode == 0) then none else c.waveform out

  module _ {F : Type 0} where
    unfoldable pub store_audio : AudioData F A → Option A → AudioData F A × Outcome
    store_audio d none = (d, raised conversion_failed)
    store_audio d (some audio_data) = (
      record d {
        audio_data = some audio_data;
        audio_data_sample_rate = some c.convert_sample_rate;
      },
      passed,
    )

    unfoldable pub convert : AudioData F A → Bytes → AudioData F A × Outcome
    unfolding load_audio_from_binary store_audio
    convert d [] = (d, raised no_audio_data)
    convert d (b ∷ bs) = store_audio d (load_audio_from_binary (b ∷ bs))

    -- `execute`, on `dp.data`; the module keeps no state.
    unfoldable pub execute : AudioData F A → AudioData F A × Outcome
    unfolding convert
    execute d = convert d d.raw_audio_data
