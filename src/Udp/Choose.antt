-- ===== src/Udp/Choose.antt =====
-- Which client the loop `_listen` of UDPserver.py takes for a datagram.
use live_translation.Common.{
  get_elem?-lt, ℕ, ◌≡◌, refl, ap, subst, ◌⊎◌, inl, inr, true, false, List, [], ◌∷◌, none, some,
  arith, get_elem?, get_elem?-set_self, Bool-cases, Option-cases,
}
use live_translation.Common.Dict.{lookup}
use live_translation.Common.Result.{ok, Result-cases}
use live_translation.Udp.{
  Address, Client, Server, deref, object, has_address, find_address, put_client,
}
use live_translation.Udp.Listen.{find_unbound, bind, choose}

-- The object `c` has the port `port`.
pub record HasPort (s : Server) (port c : ℕ) : Type 0 where
  pub client : Client
  pub object : get_elem? s.heap c ≡ some client
  pub bound : client.port ≡ some port

deref-ok :
    (s : Server) (c : ℕ) (client : Client)
    → deref s c ≡ ok client
    → get_elem? s.heap c ≡ some client
unfolding deref
deref-ok s c client e = elim (Option-cases (get_elem? s.heap c)) [
  | inl missing ↦ absurd (ground arith)
  | inr (found, e') ↦ ground arith
]

pub ok-deref :
    (s : Server) (c : ℕ) (client : Client)
    → get_elem? s.heap c ≡ some client
    → deref s c ≡ ok client
unfolding deref
ok-deref s c client e = ap object e

has_address-port :
    (client : Client) (address : Address)
    → has_address client address ≡ true
    → client.port ≡ some address.1
has_address-port client (host, port) e = ground arith

pub found_port :
    (s : Server) (address : Address) (cs : List ℕ) (c : ℕ)
    → find_address s address cs ≡ ok (some c)
    → HasPort s address.1 c
unfolding find_address
found_port s address [] c e = absurd (ground arith)
found_port s address (d ∷ ds) c e = elim (Result-cases (deref s d)) [
  | inr (x, f) ↦ absurd (let e' = rw f at e in ground arith)
  | inl (client, f) ↦ elim (Bool-cases (has_address client address)) [
    | inr other ↦ found_port s address ds c (rw (f, other) at e)
    | inl hit ↦
        let e' = rw (f, hit) at e in
        let same : d ≡ c = ground arith in
        record {
          client = client;
          object = rw (← same) (deref-ok s d client f);
          bound = has_address-port client address hit;
        }
  ]
]

pub choose-HasPort :
    (s t : Server) (address : Address) (cs : List ℕ) (c : ℕ)
    → choose s address cs ≡ ok (t, some c)
    → HasPort t address.1 c
unfolding choose
choose-HasPort s t (host, port) cs c e = elim (Result-cases (find_address s (host, port) cs)) [
  | inr (x, f) ↦ absurd (let e' = rw f at e in ground arith)
  | inl (some k, f) ↦
      let e' = rw f at e in
      let same : k ≡ c = ground arith in
      let state : s ≡ t = ground arith in
      subst (λ u. HasPort u port c) state (found_port s (host, port) cs c (rw same at f))
  | inl (none, f) ↦ elim (Result-cases (find_unbound s cs)) [
    | inr (x, g) ↦ absurd (let e' = rw (f, g) at e in ground arith)
    | inl (none, g) ↦ absurd (let e' = rw (f, g) at e in ground arith)
    | inl (some k, g) ↦ elim (Result-cases (deref s k)) [
      | inr (x, h) ↦ absurd (let e' = rw (f, g, h) at e in ground arith)
      | inl (client, h) ↦
          let e' = rw (f, g, h) at e in
          let same : k ≡ c = ground arith in
          let state : put_client s k (bind client port) ≡ t = ground arith in
          let there = get_elem?-lt s.heap k client (deref-ok s k client h) in
          subst (λ u. HasPort u port c) state
            (record {
              client = bind client port;
              object = rw (← same) (get_elem?-set_self s.heap k (bind client port) there);
              bound = refl;
            })
    ]
  ]
]

-- Every client of the list has a port, and none has this address.
abbrev pub AllElsewhere : Server → Address → List ℕ → Type 0
AllElsewhere s address [] = Unit {0}
AllElsewhere s address (c ∷ cs) =
    ((client : Client) × (port : ℕ) × (get_elem? s.heap c ≡ some client)
      × (client.port ≡ some port)
      × (has_address client address ≡ false))
    × AllElsewhere s address cs

-- No client of the host is there for this address.
abbrev pub IsUnclaimed : Server → Address → Type 0
IsUnclaimed s address =
    (lookup address.0 s.clients ≡ none)
    ⊎ ((cs : List ℕ) × (lookup address.0 s.clients ≡ some cs) × AllElsewhere s address cs)

all_elsewhere :
    (s : Server) (address : Address) (cs : List ℕ)
    → find_address s address cs ≡ ok none
    → find_unbound s cs ≡ ok none
    → AllElsewhere s address cs
unfolding find_address find_unbound
all_elsewhere s address [] e g = tt
all_elsewhere s address (c ∷ cs) e g = elim (Result-cases (deref s c)) [
  | inr (x, f) ↦ absurd (let e' = rw f at e in ground arith)
  | inl (client, f) ↦ elim (Bool-cases (has_address client address)) [
    | inl hit ↦ absurd (let e' = rw (f, hit) at e in ground arith)
    | inr other ↦ elim (Option-cases client.port) [
      | inl free ↦ absurd (let g' = rw (f, free) at g in ground arith)
      | inr (port, bound) ↦ (
        (client, port, deref-ok s c client f, bound, other),
        all_elsewhere s address cs (rw (f, other) at e) (rw (f, bound) at g),
      )
    ]
  ]
]

pub same_heap :
    (s : Server) (address : Address) (cs : List ℕ)
    → AllElsewhere (record s { locked = false }) address cs
    → AllElsewhere s address cs
same_heap s address [] v = tt
same_heap s address (c ∷ cs) v = (v.0, same_heap s address cs v.1)

pub choose-none :
    (s t : Server) (address : Address) (cs : List ℕ)
    → choose s address cs ≡ ok (t, none)
    → AllElsewhere s address cs
unfolding choose
choose-none s t (host, port) cs e = elim (Result-cases (find_address s (host, port) cs)) [
  | inr (x, f) ↦ absurd (let e' = rw f at e in ground arith)
  | inl (some k, f) ↦ absurd (let e' = rw f at e in ground arith)
  | inl (none, f) ↦ elim (Result-cases (find_unbound s cs)) [
    | inr (x, g) ↦ absurd (let e' = rw (f, g) at e in ground arith)
    | inl (none, g) ↦ all_elsewhere s (host, port) cs f g
    | inl (some k, g) ↦ elim (Result-cases (deref s k)) [
      | inr (x, h) ↦ absurd (let e' = rw (f, g, h) at e in ground arith)
      | inl (client, h) ↦ absurd (let e' = rw (f, g, h) at e in ground arith)
    ]
  ]
]
