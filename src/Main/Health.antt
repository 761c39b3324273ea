-- ===== src/Main/Health.antt =====
-- The status of main.py and its health check, which another thread may call between any two steps.
use live_translation.Common.{ℕ, ◌≡◌, refl, Bool, true, false, arith}

pub data Status : Type 0 where
  starting running stopping stopped : Status

-- `STATUS`, and whether the call of the stream server's `start` has returned, and that of its `stop`
-- has not.
pub record Program : Type 0 where
  pub status : Status
  pub is_started : Bool

abbrev pub at_start : Program
at_start = record { status = stopped; is_started = false }

-- The response of `/health`: the status, and the code of HTTP.
unfoldable pub healthcheck : Status → Status × ℕ
healthcheck running = (running, 200)
healthcheck status = (status, 503)

abbrev pub program : Status → Bool → Program
program status is_started = record { status = status; is_started = is_started }

-- The steps of `main`, each an assignment of `STATUS` or a call on the server. Where loading the
-- settings, or a call on the server, raises, the program stays where it is and ends.
pub data Step : Program → Program → Type 0 where
  begin : Step (program stopped false) (program starting false)
  start_server : Step (program starting false) (program starting true)
  ready : Step (program starting true) (program running true)
  interrupt : Step (program running true) (program stopping true)
  stop_server : Step (program stopping true) (program stopping false)
  finish : Step (program stopping false) (program stopped false)

pub data Steps : Program → Program → Type 0 where
  here : {p : Program} → Steps p p
  later : {p q r : Program} → Step p q → Steps q r → Steps p r

-- A state in which the health check may be asked.
abbrev IsSound : Program → Type 0
IsSound p = (healthcheck p.status).1 ≡ 200 → p.is_started ≡ true

Step-IsSound : {p q : Program} → Step p q → IsSound q
unfolding healthcheck
Step-IsSound begin h = absurd (omega (arith, h))
Step-IsSound start_server h = refl
Step-IsSound ready h = refl
Step-IsSound interrupt h = refl
Step-IsSound stop_server h = absurd (omega (arith, h))
Step-IsSound finish h = absurd (omega (arith, h))

Steps-IsSound : {p q : Program} → IsSound p → Steps p q → IsSound q
Steps-IsSound s here = s
Steps-IsSound s (later step steps) = Steps-IsSound (Step-IsSound step) steps

-- Whenever the health check answers with 200, whatever `main` has done by then, `start` of the
-- stream server has returned, and its `stop` has not. (That does not mean that the server listens.)
pub healthcheck_started :
    {p : Program} → Steps at_start p → (healthcheck p.status).1 ≡ 200 → p.is_started ≡ true
unfolding healthcheck
healthcheck_started steps = Steps-IsSound (λ h. absurd (omega (arith, h))) steps
