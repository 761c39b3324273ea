-- ===== src/Evaluation/Playback/Complete.antt =====
-- Playback of a stream whose pages `time.sleep` can wait for.
use live_translation.Common.{
  ℕ, ◌≢◌, ◌≡◌, refl, ap, Bool, true, false, ◌==◌, some, List, [], ◌∷◌, map, arith,
}
use live_translation.Common.Int.{ℤ, sub_ℕ}
use live_translation.Common.Float.{Floats}
use live_translation.Common.Result.{ok}
use live_translation.Ogg.Bytes.{Bytes}
use live_translation.Ogg.Page.{Page}
use live_translation.Ogg.IdHeader.{IdHeader}
use live_translation.Ogg.Audio.{Audio, open_audio, calculate_page_duration, samples_between}
use live_translation.Ogg.Audio.Duration.{durations}
use live_translation.Evaluation.Playback.{
  Action, sent, slept, Ending, returned, play, play_page, sleep, play_audio, play_opened,
  simulate_live_audio_stream,
}

-- What is handed to the callback, and the times slept.
abbrev pub sent_by : List Action → List Bytes
sent_by [] = []
sent_by (sent raw ∷ actions) = raw ∷ sent_by actions
sent_by (slept duration ∷ actions) = sent_by actions

abbrev pub slept_by : List Action → List ℤ
slept_by [] = []
slept_by (sent raw ∷ actions) = slept_by actions
slept_by (slept duration ∷ actions) = duration ∷ slept_by actions

-- Sends and sleeps take turns.
abbrev pub AreInTurn : List Action → Type 0
AreInTurn [] = Unit {0}
AreInTurn (sent raw ∷ slept duration ∷ actions) = AreInTurn actions
AreInTurn (sent raw ∷ []) = ⊥
AreInTurn (sent raw ∷ sent raw' ∷ actions) = ⊥
AreInTurn (slept duration ∷ actions) = ⊥

module _ (o : Floats ℤ) (can_sleep : ℤ → Bool) where
  -- `time.sleep` takes each of these times.
  abbrev pub AllSleep : List ℤ → Type 0
  AllSleep [] = Unit {0}
  AllSleep (d ∷ ds) = (o.flt d o.fzero ≡ false) × (can_sleep d ≡ true) × AllSleep ds

  record Plays (raws : List Bytes) (times : List ℤ) (r : List Action × Ending) : Type 0 where
    ends : r.1 ≡ returned
    in_turn : AreInTurn r.0
    all_sent : sent_by r.0 ≡ raws
    all_slept : slept_by r.0 ≡ times

  play_page-Plays :
      (page : Page) (d : ℤ) (raws : List Bytes) (times : List ℤ) (rest : List Action × Ending)
      → o.flt d o.fzero ≡ false
      → can_sleep d ≡ true
      → Plays raws times rest
      → Plays (page.raw_data ∷ raws) (d ∷ times) (play_page o can_sleep page (ok d) rest)
  unfolding play_page sleep
  play_page-Plays page d raws times (actions, ending) h k v =
      simp (h, k)
        (record {
          ends = v.ends;
          in_turn = v.in_turn;
          all_sent = ap (◌∷◌ page.raw_data) v.all_sent;
          all_slept = ap (◌∷◌ d) v.all_slept;
        })

  play-Plays :
      (rate g : ℕ) (pages : List Page)
      → rate ≢ 0
      → AllSleep (durations o rate g pages)
      → Plays
          (map (λ p. p.raw_data) pages)
          (durations o rate g pages)
          (play o can_sleep rate (some g) pages)
  unfolding play calculate_page_duration samples_between
  play-Plays rate g [] h n = record { ends = refl; in_turn = tt; all_sent = refl; all_slept = refl }
  play-Plays rate g (page ∷ pages) h n =
      let nonzero : (rate == 0) ≡ false = ground arith in
      let d = o.quotient (sub_ℕ page.granule_position g) rate in
      simp nonzero (
        play_page-Plays page d _ _ (play o can_sleep rate (some page.granule_position) pages) n.0
          n.1 (play-Plays rate page.granule_position pages h n.2))

  -- For a file that opens, with an id header whose sample rate is not zero, where `time.sleep`
  -- takes the time zero and the quotient of each page's samples and the rate, playback returns. It
  -- hands each page to the callback and then sleeps, in turn: the callback gets the bytes of every
  -- page once, in order, and the times are zero and these quotients, in order.
  pub simulate_live_audio_stream_complete :
      (ogg_bytes : Bytes) (audio : Audio) (header : IdHeader) (page : Page) (pages : List Page)
      → open_audio o ogg_bytes ≡ ok audio
      → audio.id_header ≡ some header
      → audio.pages ≡ page ∷ pages
      → header.input_sample_rate ≢ 0
      → AllSleep (o.fzero ∷ durations o header.input_sample_rate page.granule_position pages)
      → (actions : List Action) × (simulate_live_audio_stream o can_sleep ogg_bytes
          ≡ (actions, returned))
        × AreInTurn actions
        × (sent_by actions ≡ map (λ p. p.raw_data) (page ∷ pages))
        × (slept_by actions
            ≡ o.fzero ∷ durations o header.input_sample_rate page.granule_position pages)
  unfolding simulate_live_audio_stream play_opened play_audio play calculate_page_duration
  simulate_live_audio_stream_complete ogg_bytes audio header page pages opened found read h n =
      let g = page.granule_position in
      let rate = header.input_sample_rate in
      let rest = play o can_sleep rate (some g) pages in
      let v = play_page-Plays page o.fzero _ _ rest n.0 n.1 (play-Plays rate g pages h n.2) in
      let r = play_page o can_sleep page (ok o.fzero) rest in
      (
        r.0,
        rw (opened, found, read) (ap (λ ending. (r.0, ending)) v.ends),
        v.in_turn,
        v.all_sent,
        v.all_slept,
      )
