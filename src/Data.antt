-- ===== src/Data.antt =====
-- data.py, and what a pipeline module does with a data package. `F` stands for the floats and `A`
-- for the numpy arrays. Texts are lists of code points.
use live_translation.Common.{ℕ, List, Option}
use live_translation.Ogg.Bytes.{Bytes, Error}
use live_translation.Ogg.Utf8.{Text}

pub record Word (F : Type 0) : Type 0 where
  pub word : Text
  pub start : F
  pub end : F
  pub probability : F

pub record TextSegment (F : Type 0) : Type 0 where
  pub text : Text
  pub start : F
  pub end : F
  pub words : Option (List (Word F))
  pub probability : Option F

-- An entry of `vad_result`, a dict with the keys `start`, `end` and `segments`.
pub record Chunk (F : Type 0) : Type 0 where
  pub start : F
  pub end : F
  pub segments : List (F × F)

pub record AudioData (F A : Type 0) : Type 0 where
  pub raw_audio_data : Bytes
  pub audio_buffer : Option Bytes
  pub audio_buffer_time : Option F
  pub audio_buffer_start_after : Option F
  pub audio_data : Option A
  pub audio_data_sample_rate : Option ℕ
  pub vad_result : Option (List (Chunk F))
  pub language : Option (Text × F)
  pub transcribed_segments : Option (List (TextSegment F))
  pub confirmed_words : Option (List (Word F))
  pub unconfirmed_words : Option (List (Word F))
  pub translations : Option (List (Text × Text))

-- How a call of `execute` ends: it returns, it sets `dpm.status = Status.EXIT` and maybe a message, or
-- it raises.
pub data Message : Type 0 where
  rate_limit_exceeded no_header_pages no_message no_voice_detected : Message

pub data Fault : Type 0 where
  no_data no_audio_data no_transcribed_words no_start_time no_buffer_time no_sample_rate : Fault
  no_model no_vad_audio index_out_of_range assertion_failed : Fault
  conversion_failed no_frames binarize_failed invalid_shape : Fault
  ogg_error : Error → Fault

pub data Outcome : Type 0 where
  passed : Outcome
  exited : Message → Outcome
  raised : Fault → Outcome
