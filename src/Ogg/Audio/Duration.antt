-- ===== src/Ogg/Audio/Duration.antt =====
-- The durations of the pages and of the whole stream.
use live_translation.Common.{ℕ, ◌≡◌, refl, ◌≢◌, List, [], ◌∷◌, arith, ◌==◌, false}
use live_translation.Common.Int.{ℤ, sub_ℕ}
use live_translation.Common.Float.{Floats}
use live_translation.Common.Result.{ok}
use live_translation.Ogg.Page.{Page}
use live_translation.Ogg.Audio.{durations_from, samples_between, page_durations}

module _ (o : Floats ℤ) (rate : ℕ) where
  -- The quotient of the samples since the page before and the rate, for each page.
  abbrev pub durations : ℕ → List Page → List ℤ
  durations g [] = []
  durations g (page ∷ pages) =
      o.quotient (sub_ℕ page.granule_position g) rate ∷ durations page.granule_position pages

  -- The pages with these durations.
  abbrev pub with_each : List Page → List ℤ → List Page
  with_each [] ds = []
  with_each (page ∷ pages) [] = []
  with_each (page ∷ pages) (d ∷ ds) = record page { duration = d } ∷ with_each pages ds

  -- The sum, from the left.
  abbrev pub sum_from : ℤ → List ℤ → ℤ
  sum_from acc [] = acc
  sum_from acc (d ∷ ds) = sum_from (o.add acc d) ds

  durations_from-total :
      (g : ℕ) (acc : ℤ) (pages : List Page)
      → rate ≢ 0
      → durations_from o rate g acc pages
        ≡ ok (with_each pages (durations g pages), sum_from acc (durations g pages))
  unfolding durations_from samples_between
  durations_from-total g acc [] h = refl
  durations_from-total g acc (p ∷ ps) h =
      let step = o.quotient (sub_ℕ p.granule_position g) rate in
      let nonzero : (rate == 0) ≡ false = ground arith in
      rw (nonzero, durations_from-total p.granule_position (o.add acc step) ps h) refl

  -- With a sample rate other than zero the durations of a stream of one page or more are computed:
  -- the first page keeps its own, and every later page lasts for the quotient of the rate and the
  -- difference of its granule position and that of the page before, taken as they stand in the
  -- pages, also where a page has the position 2 ^ 64 - 1 of a page on which no packet ends. The
  -- whole lasts for the sum of the quotients, added as floats from the first one on.
  pub page_durations-total :
      (page : Page) (pages : List Page)
      → rate ≢ 0
      → page_durations o rate (page ∷ pages)
        ≡ ok (
          page ∷ with_each pages (durations page.granule_position pages),
          sum_from o.fzero (durations page.granule_position pages),
        )
  unfolding page_durations
  page_durations-total page pages h =
      rw (durations_from-total page.granule_position o.fzero pages h) refl
