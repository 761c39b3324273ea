-- ===== src/Event/Tests.antt =====
-- Tests of the event handler, and the theorems about it at concrete histories.
use live_translation.Common.{ℕ, ◌≡◌, refl, List, [], ◌∷◌, none, some, map}
use live_translation.Common.Dict.{lookup}
use live_translation.Event.{create, add_event, remove_event, emit}
use live_translation.Event.History.{
  Call, adds, removes, step, run, surviving, emit-run, add_event-fresh,
}

-- Three callbacks are added and the second one is removed, twice.
abbrev history : List (Call ℕ)
history = adds 70 ∷ adds 71 ∷ removes 1 ∷ adds 72 ∷ removes 1 ∷ []

run-history : emit (run create history) ≡ 70 ∷ 72 ∷ []
unfolding emit run step add_event remove_event
run-history = refl

emit-run_example : emit (run create history) ≡ map (λ e. e.1) (surviving 0 history)
emit-run_example = emit-run history

add_event-fresh_example :
    (lookup (add_event (run create history) 73).1 (run create history).callbacks ≡ none)
    × (lookup (add_event (run create history) 73).1 (add_event (run create history) 73).0.callbacks
        ≡ some 73)
add_event-fresh_example = add_event-fresh history 73
