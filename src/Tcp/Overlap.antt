-- ===== src/Tcp/Overlap.antt =====
-- `stop` of `Client` of TCPserver.py, line by line, for calls of two threads that overlap.
use live_translation.Common.{Bool, true, false, List, [], ◌∷◌, map, if◌then◌else◌, ℕ, zero, suc}
use live_translation.Event
use live_translation.Tcp.{Client, closed, disconnected, removed, is_closed, tells}

-- What a call does next: it tests `_running`, resets it, tests `conn`, starts the callbacks, closes
-- the connection and sets it to None, takes the client off the server's list, or has returned.
pub data Stage : Type 0 where
  tests_running resets tests_conn notifies closes removes done : Stage

-- Six steps of each call, in turn.
abbrev pub in_turn : ℕ → List Bool
in_turn zero = []
in_turn (suc n) = false ∷ true ∷ in_turn n

module _ {F : Type 0} where
  -- One of these. What `shutdown` and `close` raise, also on None, is caught.
  unfoldable pub stop_step : Stage → Client F → Stage × Client F
  stop_step tests_running c = (if c.running then resets else done, c)
  stop_step resets c = (tests_conn, record c { running = false })
  stop_step tests_conn c = (if is_closed c.conn then done else notifies, c)
  stop_step notifies c = (closes, tells c (map disconnected (Event.emit c.disconnected_callbacks)))
  stop_step closes c = (removes, record c { conn = closed })
  stop_step removes c = (done, tells c (removed ∷ []))
  stop_step done c = (done, c)

  -- A call that no other call overlaps: so many steps of it.
  unfoldable pub alone : ℕ → Stage → Client F → Stage × Client F
  unfolding stop_step
  alone zero stage c = (stage, c)
  alone (suc n) stage c = let (next, c') = stop_step stage c in alone n next c'

  -- Two calls: the schedule says of each step whether the second call makes it.
  unfoldable pub both : List Bool → Stage → Stage → Client F → Stage × Stage × Client F
  unfolding stop_step
  both [] first second c = (first, second, c)
  both (false ∷ schedule) first second c =
      let (next, c') = stop_step first c in both schedule next second c'
  both (true ∷ schedule) first second c =
      let (next, c') = stop_step second c in both schedule first next c'
