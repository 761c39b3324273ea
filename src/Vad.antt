-- ===== src/Vad.antt =====
-- m_vad.py: `merge_chunks` and `VAD.execute`; `Binarize` has a module of its own. pyannote's model and
-- annotation are parameters.
pub mod Chunks
pub mod Binarize
mod Tests
use live_translation.Common.{
  ℕ, ◌≡◌, Bool, true, false, ◌&&◌, ◌||◌, List, [], ◌∷◌, ◌++◌, ◌==◌, ltb, Option, none, some, map,
  not, if◌then◌else◌,
}
use live_translation.Common.Float.{Floats}
use live_translation.Common.Result.{Result, ok, err, ◌>>=◌, ◌>>◌, raise_if}
use live_translation.Vad.Binarize.{create, regions_of, trim}
use live_translation.Data.{
  no_frames, binarize_failed, invalid_shape, Fault, AudioData, Chunk, Outcome, passed, exited,
  raised, no_model, no_audio_data, no_buffer_time, no_sample_rate, no_voice_detected,
  assertion_failed,
}

pub record Vad (F : Type 0) : Type 0 where
  pub max_chunk_size : F
  pub last_time_spoken_offset : F
  pub loaded : Bool

-- torch's tensor `T` of a waveform, its number of dimensions, and one dimension added in front;
-- pyannote's model, from the tensor and the sample rate to the frames of one class (timestamp and
-- score); `support` of an annotation, the timeline of an annotation, whether a number is of the type
-- `float` itself, which those of numpy are not, and the floats 0.5 and inf.
pub record Pyannote (F A T : Type 0) : Type 0 where
  pub tensor : A → T
  pub ndim : T → ℕ
  pub unsqueeze : T → T
  pub segmentation : T → ℕ → List (F × F)
  pub support : F → List (F × F) → List (F × F)
  pub get_timeline : List (F × F) → List (F × F)
  pub is_float : F → Bool
  pub half : F
  pub infinity : F

module _ {F A T : Type 0} (p : Pyannote F A T) where
  -- The tensor that the model gets.
  unfoldable pub two_dimensional : T → Result Fault T
  two_dimensional waveform_tensor =
      if p.ndim waveform_tensor == 1
      then ok (p.unsqueeze waveform_tensor)
      else if ltb 2 (p.ndim waveform_tensor)
      then err invalid_shape
      else ok waveform_tensor

  -- `VoiceActivitySegmentation.apply`, without a hook.
  unfoldable pub apply : A → ℕ → Result Fault (List (F × F))
  unfolding two_dimensional
  apply audio_waveform sr = do
    waveform_tensor ← two_dimensional (p.tensor audio_waveform)
    ok (p.segmentation waveform_tensor sr)

module _ {F : Type 0} (o : Floats F) where
  open o use {fzero, sub, flt}

  abbrev pub chunk : F → F → List (F × F) → Chunk F
  chunk start end segments = record { start = start; end = end; segments = segments }

  -- `seg.end - curr_start > chunk_size and curr_end - curr_start > 0`
  abbrev pub is_full : F → F → F → F → Bool
  is_full chunk_size curr_start curr_end end =
      flt chunk_size (sub end curr_start) && flt fzero (sub curr_end curr_start)

  -- The loop of `merge_chunks`, and the chunk that is added behind it.
  unfoldable pub merge_from : F → F → F → List (F × F) → List (F × F) → List (Chunk F)
  merge_from chunk_size curr_start curr_end seg_idxs [] = chunk curr_start curr_end seg_idxs ∷ []
  merge_from chunk_size curr_start curr_end seg_idxs ((start, end) ∷ segments) =
      let split =
        chunk curr_start curr_end seg_idxs
        ∷ merge_from chunk_size start end ((start, end) ∷ []) segments in
      let joined = merge_from chunk_size curr_start end (seg_idxs ++ (start, end) ∷ []) segments in
      if is_full chunk_size curr_start curr_end end then split else joined

  -- `merge_chunks` behind the call of `Binarize`, on the segments of its timeline.
  unfoldable pub merge_segments : F → List (F × F) → List (Chunk F)
  unfolding merge_from
  merge_segments chunk_size [] = []
  merge_segments chunk_size ((start, end) ∷ segments) =
      merge_from chunk_size start fzero [] ((start, end) ∷ segments)

  -- The last chunk's end if its type is `float`, or 0.0.
  unfoldable pub last_time_spoken : (F → Bool) → List (Chunk F) → F
  last_time_spoken is_float [] = fzero
  last_time_spoken is_float (c ∷ []) = if is_float c.end then c.end else fzero
  last_time_spoken is_float (c ∷ d ∷ ds) = last_time_spoken is_float (d ∷ ds)

  abbrev pub is_silent : (F → Bool) → List (Chunk F) → F → Bool
  is_silent is_float [] latest = true
  is_silent is_float (c ∷ cs) latest = flt (last_time_spoken is_float (c ∷ cs)) latest

  abbrev pub or_failed {ℓ} : {R : Type ℓ} → Option R → Result Fault R
  or_failed none = err binarize_failed
  or_failed (some r) = ok r

  module _ {A T : Type 0} where
    -- `Binarize(max_duration=chunk_size, onset=0.5, offset=None)`
    unfoldable pub binarizer : Pyannote F A T → F → Binarize.Binarize F
    unfolding create
    binarizer p chunk_size = create o p.half none fzero fzero fzero fzero chunk_size

    -- The call of it: `timestamps[0]` where the model gives no frame, and one fault for what else it
    -- raises.
    unfoldable pub binarized : Pyannote F A T → F → List (F × F) → Result Fault (List (F × F))
    unfolding binarizer regions_of trim
    binarized p chunk_size [] = err no_frames
    binarized p chunk_size (frame ∷ frames) = do
      regions ← or_failed (regions_of o (binarizer p chunk_size) (frame ∷ frames))
      or_failed (trim o (binarizer p chunk_size) p.support p.infinity regions)

    unfoldable pub merge_chunks : Pyannote F A T → F → List (F × F) → Result Fault (List (Chunk F))
    unfolding binarized merge_segments
    merge_chunks p chunk_size frames = do
      raise_if (not (flt fzero chunk_size)) assertion_failed
      active ← binarized p chunk_size frames
      ok (merge_segments chunk_size (p.get_timeline active))

    module _ (p : Pyannote F A T) where
      -- `audio_buffer_time if audio_buffer_time < self.max_chunk_size else self.max_chunk_size`
      abbrev pub chunk_size_of : Vad F → F → F
      chunk_size_of s audio_time =
          if flt audio_time s.max_chunk_size then audio_time else s.max_chunk_size

      -- What `execute` does with the merged chunks.
      unfoldable pub judge_chunks :
          Vad F → AudioData F A → F → Result Fault (List (Chunk F)) → AudioData F A × Outcome
      unfolding last_time_spoken
      judge_chunks s d audio_time (err fault) = (d, raised fault)
      judge_chunks s d audio_time (ok merged) =
          let d' = record d { vad_result = some merged } in
          if is_silent p.is_float merged (sub audio_time s.last_time_spoken_offset)
          then (d', exited no_voice_detected)
          else (d', passed)

      -- `execute` from the call of the model on.
      unfoldable pub detect : Vad F → AudioData F A → A → F → ℕ → AudioData F A × Outcome
      unfolding apply merge_chunks judge_chunks
      detect s d audio audio_time sample_rate = judge_chunks s d audio_time (do
        frames ← apply p audio sample_rate
        merge_chunks p (chunk_size_of s audio_time) frames)

      -- The fields of the package, in the order in which they are looked at.
      unfoldable pub detect_fields :
          Vad F → AudioData F A → Option A → Option F → Option ℕ → AudioData F A × Outcome
      unfolding detect
      detect_fields s d none audio_time sample_rate = (d, raised no_audio_data)
      detect_fields s d (some audio) none sample_rate = (d, raised no_buffer_time)
      detect_fields s d (some audio) (some audio_time) none = (d, raised no_sample_rate)
      detect_fields s d (some audio) (some audio_time) (some sample_rate) =
          detect s d audio audio_time sample_rate

      -- `execute`, on `dp.data`; the module keeps no state.
      unfoldable pub execute : Vad F → AudioData F A → AudioData F A × Outcome
      unfolding detect_fields
      execute s d =
          if not s.loaded
          then (d, raised no_model)
          else detect_fields s d d.audio_data d.audio_buffer_time d.audio_data_sample_rate
