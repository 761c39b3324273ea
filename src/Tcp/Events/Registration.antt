-- ===== src/Tcp/Events/Registration.antt =====
-- Registering a callback with a client of TCPserver.py, and removing it again.
use live_translation.Common.{
  ℕ, ◌≡◌, refl, sym, ap, ◌∙◌, false, [], ◌∷◌, ◌++◌, map, map-append, append-nil, Option, none, some,
  arith, ◌==◌, ==-self, if◌then◌else◌,
}
use live_translation.Common.Dict.{Dict, lookup, erase}
use live_translation.Event
use live_translation.Event.{EventHandler}
use live_translation.Event.History.{IsFresh, insert_new, lookup_above}
use live_translation.Tcp.{Client}
use live_translation.Tcp.Events.{
  EventType, on_disconnect, on_timeout, on_message, on_ping, unsupported, parameters_of, on_event,
  remove_event,
}

erase_new : (n cb : ℕ) (d : Dict ℕ) → lookup n d ≡ none → erase n (d ++ (n, cb) ∷ []) ≡ d
erase_new n cb [] h = rw (==-self n)
erase_new n cb (e ∷ d) h = ground (arith, erase_new n cb d)

add_event-emit :
    (h : EventHandler ℕ) (callback : ℕ)
    → IsFresh h.next_id h.callbacks
    → (Event.emit (Event.add_event h callback).0 ≡ Event.emit h ++ callback ∷ [])
      × (Event.emit (Event.remove_event (Event.add_event h callback).0 h.next_id) ≡ Event.emit h)
unfolding Event.add_event Event.remove_event Event.emit
add_event-emit h callback fresh =
    let n = h.next_id in
    let absent = lookup_above n n h.callbacks fresh (omega arith) in
    let last = insert_new n callback h.callbacks absent in
    (
      ap (map (λ e. e.1)) last ∙ map-append (λ e. e.1) h.callbacks ((n, callback) ∷ []),
      ap (λ d. map (λ e. e.1) (erase n d)) last
          ∙ ap (map (λ e. e.1)) (erase_new n callback h.callbacks absent),
    )

add_event-id :
    (h : EventHandler ℕ) (callback : ℕ)
    → ◌≡◌ {A = Option ℕ} (some (Event.add_event h callback).1) (some h.next_id)
unfolding Event.add_event
add_event-id h callback = refl

-- The handlers of a client, as its attributes are named.
abbrev pub handler_of : {F : Type 0} → Client F → EventType → EventHandler ℕ
handler_of c on_disconnect = c.disconnected_callbacks
handler_of c on_timeout = c.timeout_callbacks
handler_of c on_message = c.message_callbacks
handler_of c on_ping = c.ping_callbacks
handler_of c unsupported = Event.create

abbrev pub number : EventType → ℕ
number on_disconnect = 0
number on_timeout = 1
number on_message = 2
number on_ping = 3
number unsupported = 4

module _ {F : Type 0} (c : Client F) (type : EventType) (callback : ℕ) where
  -- What the registration and the removal change for the events of one type: nothing but for the
  -- type that they are about.
  pub record Registers (other : EventType) : Type 0 where
    pub id : ℕ
    pub given : (on_event c type (parameters_of type) callback).1 ≡ some id
    pub during :
        Event.emit (handler_of (on_event c type (parameters_of type) callback).0 other)
        ≡ Event.emit (handler_of c other)
          ++ (if number other == number type then callback ∷ [] else [])
    pub after :
        Event.emit (
          handler_of (remove_event (on_event c type (parameters_of type) callback).0 type id) other)
        ≡ Event.emit (handler_of c other)

-- Registering a callback with the number of parameters that its type of event asks for gives an id.
-- From then on the callback is started last by events of that type; events of all other types start
-- what they started before. Once it is removed by that id, events of every type start what they
-- started at first. Conditions: the type is a supported one, and the ids of its handler are below
-- its next id, each used once.
pub remove_event-on_event :
    {F : Type 0} (c : Client F) (type other : EventType) (callback : ℕ)
    → (number type == 4) ≡ false
    → IsFresh (handler_of c type).next_id (handler_of c type).callbacks
    → Registers c type callback other
unfolding on_event remove_event
remove_event-on_event c on_disconnect on_disconnect callback h fresh = record {
  id = c.disconnected_callbacks.next_id;
  given = add_event-id c.disconnected_callbacks callback;
  during = (add_event-emit c.disconnected_callbacks callback fresh).0;
  after = (add_event-emit c.disconnected_callbacks callback fresh).1;
}
remove_event-on_event c on_disconnect on_timeout callback h fresh = record {
  id = c.disconnected_callbacks.next_id;
  given = add_event-id c.disconnected_callbacks callback;
  during = sym (append-nil (Event.emit c.timeout_callbacks));
  after = refl;
}
remove_event-on_event c on_disconnect on_message callback h fresh = record {
  id = c.disconnected_callbacks.next_id;
  given = add_event-id c.disconnected_callbacks callback;
  during = sym (append-nil (Event.emit c.message_callbacks));
  after = refl;
}
remove_event-on_event c on_disconnect on_ping callback h fresh = record {
  id = c.disconnected_callbacks.next_id;
  given = add_event-id c.disconnected_callbacks callback;
  during = sym (append-nil (Event.emit c.ping_callbacks));
  after = refl;
}
remove_event-on_event c on_disconnect unsupported callback h fresh = record {
  id = c.disconnected_callbacks.next_id;
  given = add_event-id c.disconnected_callbacks callback;
  during = sym (append-nil (Event.emit Event.create));
  after = refl;
}
remove_event-on_event c on_timeout on_disconnect callback h fresh = record {
  id = c.timeout_callbacks.next_id;
  given = add_event-id c.timeout_callbacks callback;
  during = sym (append-nil (Event.emit c.disconnected_callbacks));
  after = refl;
}
remove_event-on_event c on_timeout on_timeout callback h fresh = record {
  id = c.timeout_callbacks.next_id;
  given = add_event-id c.timeout_callbacks callback;
  during = (add_event-emit c.timeout_callbacks callback fresh).0;
  after = (add_event-emit c.timeout_callbacks callback fresh).1;
}
remove_event-on_event c on_timeout on_message callback h fresh = record {
  id = c.timeout_callbacks.next_id;
  given = add_event-id c.timeout_callbacks callback;
  during = sym (append-nil (Event.emit c.message_callbacks));
  after = refl;
}
remove_event-on_event c on_timeout on_ping callback h fresh = record {
  id = c.timeout_callbacks.next_id;
  given = add_event-id c.timeout_callbacks callback;
  during = sym (append-nil (Event.emit c.ping_callbacks));
  after = refl;
}
remove_event-on_event c on_timeout unsupported callback h fresh = record {
  id = c.timeout_callbacks.next_id;
  given = add_event-id c.timeout_callbacks callback;
  during = sym (append-nil (Event.emit Event.create));
  after = refl;
}
remove_event-on_event c on_message on_disconnect callback h fresh = record {
  id = c.message_callbacks.next_id;
  given = add_event-id c.message_callbacks callback;
  during = sym (append-nil (Event.emit c.disconnected_callbacks));
  after = refl;
}
remove_event-on_event c on_message on_timeout callback h fresh = record {
  id = c.message_callbacks.next_id;
  given = add_event-id c.message_callbacks callback;
  during = sym (append-nil (Event.emit c.timeout_callbacks));
  after = refl;
}
remove_event-on_event c on_message on_message callback h fresh = record {
  id = c.message_callbacks.next_id;
  given = add_event-id c.message_callbacks callback;
  during = (add_event-emit c.message_callbacks callback fresh).0;
  after = (add_event-emit c.message_callbacks callback fresh).1;
}
remove_event-on_event c on_message on_ping callback h fresh = record {
  id = c.message_callbacks.next_id;
  given = add_event-id c.message_callbacks callback;
  during = sym (append-nil (Event.emit c.ping_callbacks));
  after = refl;
}
remove_event-on_event c on_message unsupported callback h fresh = record {
  id = c.message_callbacks.next_id;
  given = add_event-id c.message_callbacks callback;
  during = sym (append-nil (Event.emit Event.create));
  after = refl;
}
remove_event-on_event c on_ping on_disconnect callback h fresh = record {
  id = c.ping_callbacks.next_id;
  given = add_event-id c.ping_callbacks callback;
  during = sym (append-nil (Event.emit c.disconnected_callbacks));
  after = refl;
}
remove_event-on_event c on_ping on_timeout callback h fresh = record {
  id = c.ping_callbacks.next_id;
  given = add_event-id c.ping_callbacks callback;
  during = sym (append-nil (Event.emit c.timeout_callbacks));
  after = refl;
}
remove_event-on_event c on_ping on_message callback h fresh = record {
  id = c.ping_callbacks.next_id;
  given = add_event-id c.ping_callbacks callback;
  during = sym (append-nil (Event.emit c.message_callbacks));
  after = refl;
}
remove_event-on_event c on_ping on_ping callback h fresh = record {
  id = c.ping_callbacks.next_id;
  given = add_event-id c.ping_callbacks callback;
  during = (add_event-emit c.ping_callbacks callback fresh).0;
  after = (add_event-emit c.ping_callbacks callback fresh).1;
}
remove_event-on_event c on_ping unsupported callback h fresh = record {
  id = c.ping_callbacks.next_id;
  given = add_event-id c.ping_callbacks callback;
  during = sym (append-nil (Event.emit Event.create));
  after = refl;
}
remove_event-on_event c unsupported other callback h fresh = cc
