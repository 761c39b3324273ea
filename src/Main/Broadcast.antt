-- ===== src/Main/Broadcast.antt =====
-- Who gets the text of a package that has run through the pipeline of main.py.
use live_translation.Common.{
  ℕ, ◌≡◌, refl, sym, ◌∙◌, true, List, [], ◌∷◌, ◌++◌, map, some, ◌==◌, Bool-cases, inl, inr,
  append_assoc, append-nil, ==-self,
}
use live_translation.Common.Int.{ℤ}
use live_translation.Common.Dict.{insert, erase}
use live_translation.Ogg.Bytes.{Bytes}
use live_translation.Ogg.Utf8.{Text}
use live_translation.Data.{AudioData, Word}
use live_translation.Main.{
  ClientDict, Event, connected, disconnected, timed_out, message, on_connected, on_gone, handle,
  handle_all, add_words, send_to, send_words, callback,
}
use live_translation.Main.Registered.{on_gone_cases}

-- The words, each with a space behind it.
abbrev pub joined : List (Word ℤ) → Text
joined [] = []
joined (word ∷ words) = word.word ++ b' ' ∷ joined words

add_words-joined :
    (text : Text) (words : List (Word ℤ)) → add_words text words ≡ text ++ joined words
unfolding add_words
add_words-joined text [] = sym (append-nil text)
add_words-joined text (word ∷ words) =
    add_words-joined (text ++ word.word ++ b' ' ∷ []) words
    ∙ (append_assoc (text ++ word.word) (b' ' ∷ []) (joined words)
        ∙ append_assoc text word.word (b' ' ∷ joined words))

module _ (instance_id : ℕ) where
  -- All entries use the instance.
  abbrev AllUse : ClientDict → Type 0
  AllUse [] = Unit {0}
  AllUse (entry ∷ others) = (entry.1.instance_id ≡ some instance_id) × AllUse others

  insert-AllUse :
      (c : ℕ) (d : ClientDict)
      → AllUse d
      → AllUse (insert c (record { instance_id = some instance_id }) d)
  insert-AllUse c [] h = (refl, tt)
  insert-AllUse c (entry ∷ others) h = elim (Bool-cases (c == entry.0)) [
    | inl same ↦ rw same (refl, h.1)
    | inr other ↦ rw other (h.0, insert-AllUse c others h.1)
  ]

  erase-AllUse : (c : ℕ) (d : ClientDict) → AllUse d → AllUse (erase c d)
  erase-AllUse c [] h = h
  erase-AllUse c (entry ∷ others) h = elim (Bool-cases (c == entry.0)) [
    | inl same ↦ rw same h.1
    | inr other ↦ rw other (h.0, erase-AllUse c others h.1)
  ]

  on_gone-AllUse : (c : ℕ) (d : ClientDict) → AllUse d → AllUse (on_gone c d)
  on_gone-AllUse c d h = elim (on_gone_cases c d) [
    | inl (missing, e) ↦ rw e h
    | inr e ↦ rw e (erase-AllUse c d h)
  ]

  handle-AllUse : (event : Event) (d : ClientDict) → AllUse d → AllUse (handle instance_id event d)
  unfolding handle on_connected
  handle-AllUse (connected c) d h = insert-AllUse c d h
  handle-AllUse (disconnected c) d h = on_gone-AllUse c d h
  handle-AllUse (timed_out c) d h = on_gone-AllUse c d h
  handle-AllUse (message c recv_data) d h = h

  handle_all-AllUse :
      (events : List Event) (d : ClientDict) → AllUse d → AllUse (handle_all instance_id events d)
  unfolding handle_all
  handle_all-AllUse [] d h = h
  handle_all-AllUse (event ∷ events) d h =
      handle_all-AllUse events (handle instance_id event d) (handle-AllUse event d h)

  send_to-all :
      (payload : Bytes) (d : ClientDict)
      → AllUse d
      → send_to instance_id payload d ≡ map (λ entry. (entry.0, payload)) d
  unfolding send_to
  send_to-all payload [] h = refl
  send_to-all payload (entry ∷ others) h =
      let self : (instance_id == instance_id) ≡ true = ==-self instance_id in
      simp (h.0, self, send_to-all payload others h.1) refl

  -- A package that comes out with confirmed and unconfirmed words is sent, as its confirmed words
  -- with a space behind each, to every client that is in the dict after any events, whichever client
  -- the package came from.
  pub callback-all :
      {A : Type 0} (encode : Text → Bytes) (events : List Event) (d : AudioData ℤ A)
      (confirmed unconfirmed : List (Word ℤ))
      → d.confirmed_words ≡ some confirmed
      → d.unconfirmed_words ≡ some unconfirmed
      → (let clients = handle_all instance_id events [] in
          callback encode clients (some d) instance_id
          ≡ map (λ entry. (entry.0, encode (joined confirmed))) clients)
  unfolding callback send_words
  callback-all encode events d confirmed unconfirmed e e' =
      rw (e, e', add_words-joined [] confirmed)
        (send_to-all (encode (joined confirmed)) (handle_all instance_id events [])
          (handle_all-AllUse events [] tt))
