-- ===== src/Main/Tests.antt =====
-- Tests of the callbacks of main.py, and the theorems about them at concrete events.
use live_translation.Common.{
  ℕ, ◌≡◌, refl, true, false, List, [], ◌∷◌, map, none, some, if◌then◌else◌,
}
use live_translation.Common.Int.{ℤ, pos}
use live_translation.Data.{AudioData, Word}
use live_translation.Main.{
  Event, connected, disconnected, timed_out, message, new_package, onmsg, handle_all, handle,
  on_connected, on_gone, callback, send_words, send_to, add_words,
}
use live_translation.Main.Registered.{is_connected, onmsg-is_connected}
use live_translation.Main.Broadcast.{joined, callback-all}
use live_translation.Main.Health.{
  program, running, here, later, begin, start_server, ready, healthcheck, at_start, Steps,
}

-- Client 1 leaves and comes back, client 2 times out, client 3 stays.
abbrev events : List Event
events =
    connected 1
    ∷ connected 2
    ∷ disconnected 1
    ∷ connected 3
    ∷ message 2 (5 ∷ [])
    ∷ timed_out 2
    ∷ disconnected 2
    ∷ connected 1
    ∷ []

handle_all-events : map (λ entry. entry.0) (handle_all 7 events []) ≡ 3 ∷ 1 ∷ []
unfolding handle_all handle on_connected on_gone
handle_all-events = refl

onmsg-is_connected_example :
    onmsg {A = ℕ} 2 (9 ∷ []) (handle_all 7 events [])
    ≡ (if is_connected 2 events false then some (new_package (9 ∷ []), 7) else none)
onmsg-is_connected_example = onmsg-is_connected 7 2 (9 ∷ []) events

abbrev word_of : ℕ → Word ℤ
word_of c = record { word = c ∷ []; start = pos 0; end = pos 1; probability = pos 1 }

abbrev confirmed : List (Word ℤ)
confirmed = word_of 97 ∷ word_of 98 ∷ []

abbrev finished : AudioData ℤ ℕ
finished = record (new_package []) { confirmed_words = some confirmed; unconfirmed_words = some [] }

callback-finished :
    callback (λ text. text) (handle_all 7 events []) (some finished) 7
    ≡ (3, 97 ∷ 32 ∷ 98 ∷ 32 ∷ []) ∷ (1, 97 ∷ 32 ∷ 98 ∷ 32 ∷ []) ∷ []
unfolding callback send_words send_to add_words handle_all handle on_connected on_gone
callback-finished = refl

callback-all_example :
    callback (λ text. text) (handle_all 7 events []) (some finished) 7
    ≡ map (λ entry. (entry.0, joined confirmed)) (handle_all 7 events [])
callback-all_example = callback-all 7 (λ text. text) events finished confirmed [] refl refl

started-running : Steps at_start (program running true)
started-running = later begin (later start_server (later ready here))

healthcheck-running : (healthcheck running).1 ≡ 200
unfolding healthcheck
healthcheck-running = refl
