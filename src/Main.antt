-- ===== src/Main.antt =====
-- main.py: the callbacks that it registers with the stream server and hands to the pipeline, with
-- Client.py, and the status that the health check reports. A client object of the stream server is
-- a number; `str.encode` is a parameter.
pub mod Registered
pub mod Broadcast
pub mod Health
mod Tests
use live_translation.Common.{
  ℕ, Bool, true, false, ◌&&◌, List, [], ◌∷◌, ◌++◌, map, Option, none, some, ◌==◌, if◌then◌else◌,
}
use live_translation.Common.Int.{ℤ}
use live_translation.Common.Dict.{Dict, insert, erase, lookup}
use live_translation.Ogg.Bytes.{Bytes}
use live_translation.Ogg.Utf8.{Text}
use live_translation.Data.{AudioData, Word}

-- A `Client` of Client.py, kept in `client_dict` under the client that it wraps.
pub record Client : Type 0 where
  pub instance_id : Option ℕ

abbrev pub new_client : Client
new_client = record { instance_id = none }

abbrev pub ClientDict : Type 0
ClientDict = Dict Client

-- A package handed to the pipeline, and the instance that runs it.
abbrev pub Job : Type 0 → Type 0
Job A = AudioData ℤ A × ℕ

-- `data.AudioData(raw_audio_data=recv_data)`
abbrev pub new_package : {A : Type 0} → Bytes → AudioData ℤ A
new_package recv_data = record {
  raw_audio_data = recv_data;
  audio_buffer = none;
  audio_buffer_time = none;
  audio_buffer_start_after = none;
  audio_data = none;
  audio_data_sample_rate = none;
  vad_result = none;
  language = none;
  transcribed_segments = none;
  confirmed_words = none;
  unconfirmed_words = none;
  translations = none;
}

-- What the stream server reports.
pub data Event : Type 0 where
  connected disconnected timed_out : ℕ → Event
  message : ℕ → Bytes → Event

-- `OnConnected`, for the one instance that the program registers.
unfoldable pub on_connected : ℕ → ℕ → ClientDict → ClientDict
on_connected instance_id c client_dict =
    insert c (record new_client { instance_id = some instance_id }) client_dict

-- `if c in client_dict: del client_dict[c]`, of `ondisconnedted` and of `ontimeout`.
unfoldable pub on_gone : ℕ → ClientDict → ClientDict
on_gone c client_dict = elim (lookup c client_dict) [
  | none ↦ client_dict
  | some client ↦ erase c client_dict
]

module _ {A : Type 0} where
  -- `onmsg` for the entry of the client: what `pipeline.execute` is called with, if it is.
  unfoldable pub job_of : Bytes → Option Client → Option (Job A)
  job_of recv_data none = none
  job_of recv_data (some client) = elim client.instance_id [
    | none ↦ none
    | some instance_id ↦ some (new_package recv_data, instance_id)
  ]

  unfoldable pub onmsg : ℕ → Bytes → ClientDict → Option (Job A)
  unfolding job_of
  onmsg c recv_data client_dict = job_of recv_data (lookup c client_dict)

-- The clients after one event.
unfoldable pub handle : ℕ → Event → ClientDict → ClientDict
unfolding on_connected on_gone
handle instance_id (connected c) client_dict = on_connected instance_id c client_dict
handle instance_id (disconnected c) client_dict = on_gone c client_dict
handle instance_id (timed_out c) client_dict = on_gone c client_dict
handle instance_id (message c recv_data) client_dict = client_dict

-- The clients after a sequence of events.
unfoldable pub handle_all : ℕ → List Event → ClientDict → ClientDict
unfolding handle
handle_all instance_id [] client_dict = client_dict
handle_all instance_id (event ∷ events) client_dict =
    handle_all instance_id events (handle instance_id event client_dict)

-- The loop that builds the text, from what there is of it.
unfoldable pub add_words : Text → List (Word ℤ) → Text
add_words text [] = text
add_words text (word ∷ words) = add_words (text ++ word.word ++ b' ' ∷ []) words

-- The loop over the clients: the sends of those that use the instance.
unfoldable pub send_to : ℕ → Bytes → ClientDict → List (ℕ × Bytes)
send_to pipeline_instance_id payload [] = []
send_to pipeline_instance_id payload ((c, client) ∷ others) =
    let later = send_to pipeline_instance_id payload others in
    elim client.instance_id [
      | none ↦ later
      | some instance_id ↦
          if instance_id == pipeline_instance_id then (c, payload) ∷ later else later
    ]

module _ (encode : Text → Bytes) where
  unfoldable pub send_words :
      ClientDict → ℕ → Option (List (Word ℤ)) → Option (List (Word ℤ)) → List (ℕ × Bytes)
  unfolding add_words send_to
  send_words client_dict instance_id (some confirmed_words) (some unconfirmed_words) =
      send_to instance_id (encode (add_words [] confirmed_words)) client_dict
  send_words client_dict instance_id _ _ = []

  -- `callback`, on `dp.data` and `dp.pipeline_instance_id`: what is sent to whom.
  unfoldable pub callback :
      {A : Type 0} → ClientDict → Option (AudioData ℤ A) → ℕ → List (ℕ × Bytes)
  unfolding send_words
  callback client_dict none pipeline_instance_id = []
  callback client_dict (some d) pipeline_instance_id =
      send_words client_dict pipeline_instance_id d.confirmed_words d.unconfirmed_words
