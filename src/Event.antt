-- ===== src/Event.antt =====
-- Event.py. A callback is a value of the type `C`; `emit` starts one thread for each, in order,
-- with the same arguments, and waits for all of them.
pub mod History
mod Tests
use live_translation.Common.{ℕ, ◌+◌, List, [], map}
use live_translation.Common.Dict.{Dict, insert, erase}

pub record EventHandler (C : Type 0) : Type 0 where
  pub callbacks : Dict C
  pub next_id : ℕ

module _ {C : Type 0} where
  -- The constructor.
  abbrev pub create : EventHandler C
  create = record { callbacks = []; next_id = 0 }

  unfoldable pub add_event : EventHandler C → C → EventHandler C × ℕ
  add_event h callback = (
    record h { callbacks = insert h.next_id callback h.callbacks; next_id = h.next_id + 1 },
    h.next_id,
  )

  unfoldable pub remove_event : EventHandler C → ℕ → EventHandler C
  remove_event h event_id = record h { callbacks = erase event_id h.callbacks }

  -- The callbacks that are started.
  unfoldable pub emit : EventHandler C → List C
  emit h = map (λ e. e.1) h.callbacks
