-- ===== src/Main/Registered.antt =====
-- Who is in `client_dict` of main.py after any sequence of events.
use live_translation.Common.{
  ◌⊎◌, ℕ, ◌≡◌, refl, subst, ◌∙◌, ◌≢◌, Bool, true, false, List, [], ◌∷◌, Option, none, some, ◌==◌,
  if◌then◌else◌, arith, Bool-cases, Option-cases, inl, inr,
}
use live_translation.Common.Dict.{
  insert, erase, lookup, AreUnique, lookup-insert_self, lookup-insert_ne, lookup-erase_ne,
  lookup-erase_self, insert-AreUnique, erase-AreUnique,
}
use live_translation.Ogg.Bytes.{Bytes}
use live_translation.Main.{
  Client, ClientDict, Event, connected, disconnected, timed_out, message, on_connected, on_gone,
  job_of, onmsg, new_package, handle, handle_all,
}

-- Whether the client is connected after the events, by the last event that says so.
abbrev pub is_connected : ℕ → List Event → Bool → Bool
is_connected c [] known = known
is_connected c (connected c' ∷ events) known =
    is_connected c events (if c' == c then true else known)
is_connected c (disconnected c' ∷ events) known =
    is_connected c events (if c' == c then false else known)
is_connected c (timed_out c' ∷ events) known =
    is_connected c events (if c' == c then false else known)
is_connected c (message c' recv_data ∷ events) known = is_connected c events known

-- The entry of a client that uses the instance, if it is there.
abbrev pub entry_of : ℕ → Bool → Option Client
entry_of instance_id true = some (record { instance_id = some instance_id })
entry_of instance_id false = none

pub on_gone_cases :
    (c : ℕ) (d : ClientDict) → ((lookup c d ≡ none) × (on_gone c d ≡ d)) ⊎ (on_gone c d ≡ erase c d)
unfolding on_gone
on_gone_cases c d = elim (Option-cases (lookup c d)) [
  | inl missing ↦ inl (missing, rw (missing, on_gone) refl)
  | inr (client, there) ↦ inr (rw (there, on_gone) refl)
]

on_gone-AreUnique : (c : ℕ) (d : ClientDict) → AreUnique d → AreUnique (on_gone c d)
on_gone-AreUnique c d u = elim (on_gone_cases c d) [
  | inl (missing, e) ↦ rw e u
  | inr e ↦ rw e (erase-AreUnique c d u)
]

on_gone-lookup_self : (c : ℕ) (d : ClientDict) → AreUnique d → lookup c (on_gone c d) ≡ none
on_gone-lookup_self c d u = elim (on_gone_cases c d) [
  | inl (missing, e) ↦ rw e missing
  | inr e ↦ rw e (lookup-erase_self c d u)
]

on_gone-lookup_ne : (c' c : ℕ) (d : ClientDict) → c' ≢ c → lookup c (on_gone c' d) ≡ lookup c d
on_gone-lookup_ne c' c d apart = elim (on_gone_cases c' d) [
  | inl (missing, e) ↦ rw e refl
  | inr e ↦ rw e (lookup-erase_ne c' c d apart)
]

module _ (instance_id : ℕ) where
  on_connected-lookup :
      (c c' : ℕ) (d : ClientDict) (known : Bool)
      → lookup c d ≡ entry_of instance_id known
      → lookup c (on_connected instance_id c' d)
        ≡ entry_of instance_id (if c' == c then true else known)
  unfolding on_connected
  on_connected-lookup c c' d known h = elim (Bool-cases (c' == c)) [
    | inl same ↦
        let e : c' ≡ c = ground arith in
        let client : Client = record { instance_id = some instance_id } in
        rw same (
          subst (λ k. lookup k (insert c' client d) ≡ some client) e
            (lookup-insert_self c' client d))
    | inr other ↦
        let apart : c' ≢ c = ground arith in
        rw other (lookup-insert_ne c' c (record { instance_id = some instance_id }) d apart ∙ h)
  ]

  on_gone-lookup :
      (c c' : ℕ) (d : ClientDict) (known : Bool)
      → AreUnique d
      → lookup c d ≡ entry_of instance_id known
      → lookup c (on_gone c' d) ≡ entry_of instance_id (if c' == c then false else known)
  on_gone-lookup c c' d known u h = elim (Bool-cases (c' == c)) [
    | inl same ↦
        let e : c' ≡ c = ground arith in
        rw same (subst (λ k. lookup k (on_gone c' d) ≡ none) e (on_gone-lookup_self c' d u))
    | inr other ↦ let apart : c' ≢ c = ground arith in rw other (on_gone-lookup_ne c' c d apart ∙ h)
  ]

  handle-AreUnique :
      (event : Event) (d : ClientDict) → AreUnique d → AreUnique (handle instance_id event d)
  unfolding handle on_connected
  handle-AreUnique (connected c) d u =
      insert-AreUnique c (record { instance_id = some instance_id }) d u
  handle-AreUnique (disconnected c) d u = on_gone-AreUnique c d u
  handle-AreUnique (timed_out c) d u = on_gone-AreUnique c d u
  handle-AreUnique (message c recv_data) d u = u

  handle_all-lookup :
      (c : ℕ) (events : List Event) (d : ClientDict) (known : Bool)
      → AreUnique d
      → lookup c d ≡ entry_of instance_id known
      → lookup c (handle_all instance_id events d)
        ≡ entry_of instance_id (is_connected c events known)
  unfolding handle_all handle
  handle_all-lookup c [] d known u h = h
  handle_all-lookup c (connected c' ∷ events) d known u h =
      handle_all-lookup c events (on_connected instance_id c' d) (if c' == c then true else known)
        (handle-AreUnique (connected c') d u) (on_connected-lookup c c' d known h)
  handle_all-lookup c (disconnected c' ∷ events) d known u h =
      handle_all-lookup c events (on_gone c' d) (if c' == c then false else known)
        (on_gone-AreUnique c' d u) (on_gone-lookup c c' d known u h)
  handle_all-lookup c (timed_out c' ∷ events) d known u h =
      handle_all-lookup c events (on_gone c' d) (if c' == c then false else known)
        (on_gone-AreUnique c' d u) (on_gone-lookup c c' d known u h)
  handle_all-lookup c (message c' recv_data ∷ events) d known u h =
      handle_all-lookup c events d known u h

  -- After any events, a message of a client runs the pipeline, with exactly the bytes received,
  -- if and only if the last event among the connections, disconnections and timeouts of this client
  -- is a connection.
  pub onmsg-is_connected :
      {A : Type 0} (c : ℕ) (recv_data : Bytes) (events : List Event)
      → onmsg {A = A} c recv_data (handle_all instance_id events [])
        ≡ (if is_connected c events false then some (new_package recv_data, instance_id) else none)
  unfolding onmsg job_of
  onmsg-is_connected c recv_data events = elim (Bool-cases (is_connected c events false)) [
    | inl here ↦ rw (handle_all-lookup c events [] false tt refl, here) refl
    | inr gone ↦ rw (handle_all-lookup c events [] false tt refl, gone) refl
  ]
