-- ===== src/Tcp/Lifecycle/Stuck.antt =====
-- What is left of a TCP server that cannot listen.
use live_translation.Common.{
  ◌≡◌, refl, true, false, List, [], ◌∷◌, some, ◌==◌, Bool-cases, inl, inr,
}
use live_translation.Ogg.Bytes.{Bytes}
use live_translation.Tcp.Server.{Server, accept, stop_server}
use live_translation.Tcp.Lifecycle.{
  Opening, no_listening, generate_keys, open_socket, start_keyed, start, Call, starts, stops,
  arrives, call, call_next,
}

module _ {F : Type 0} (zero_time : F) where
  -- It holds a socket, but does not run.
  pub record IsStuck (before s : Server F) : Type 0 where
    pub holds_socket : s.has_socket ≡ true
    pub not_running : s.running ≡ false
    pub no_new_clients : s.clients ≡ before.clients
    pub no_new_objects : s.heap ≡ before.heap

  start-IsStuck :
      (before s : Server F) (key : Bytes) (opening : Opening)
      → IsStuck before s
      → IsStuck before (start key opening s)
  unfolding start start_keyed generate_keys
  start-IsStuck before s key opening v = elim (Bool-cases (s.encryption == 0)) [
    | inl plain ↦ simp (plain, v.holds_socket) v
    | inr secret ↦
        simp (secret, v.holds_socket)
          (record {
            holds_socket = refl;
            not_running = v.not_running;
            no_new_clients = v.no_new_clients;
            no_new_objects = v.no_new_objects;
          })
  ]

  call-IsStuck :
      (before s : Server F) (c : Call)
      → IsStuck before s
      → (s' : Server F) × (call zero_time c s ≡ some s') × IsStuck before s'
  unfolding call stop_server accept
  call-IsStuck before s (starts key opening) v = (_, refl, start-IsStuck before s key opening v)
  call-IsStuck before s stops v = (s, simp v.not_running refl, v)
  call-IsStuck before s arrives v = (s, simp v.not_running refl, v)

  call_next-IsStuck_from :
      (before : Server F) (calls : List Call) (s : Server F)
      → IsStuck before s
      → (s' : Server F) × (call_next zero_time calls (some s) ≡ some s') × IsStuck before s'
  unfolding call_next
  call_next-IsStuck_from before [] s v = (s, refl, v)
  call_next-IsStuck_from before (c ∷ calls) s v =
      let (s', e, v') = call-IsStuck before s c v in
      let (s'', e', v'') = call_next-IsStuck_from before calls s' v' in (s'', rw (e, e'), v'')

  start-fails :
      (s : Server F) (key : Bytes) → s.has_socket ≡ false → IsStuck s (start key no_listening s)
  unfolding start start_keyed open_socket generate_keys
  start-fails s key h = elim (Bool-cases (s.encryption == 0)) [
    | inl plain ↦
        simp (plain, h)
          (record {
            holds_socket = refl;
            not_running = refl;
            no_new_clients = refl;
            no_new_objects = refl;
          })
    | inr secret ↦
        simp (secret, h)
          (record {
            holds_socket = refl;
            not_running = refl;
            no_new_clients = refl;
            no_new_objects = refl;
          })
  ]

  -- When the socket of a server that has none yet cannot be bound or cannot listen, `start` returns,
  -- and the server is stuck: whatever calls of `start` and `stop` follow, and whatever connections
  -- arrive, it does not run, keeps that socket, raises nothing and takes no client.
  pub call_next-IsStuck :
      (s : Server F) (key : Bytes) (calls : List Call)
      → s.has_socket ≡ false
      → (s' : Server F) × (call_next zero_time (starts key no_listening ∷ calls) (some s) ≡ some s')
        × IsStuck s s'
  unfolding call_next call
  call_next-IsStuck s key calls h =
      call_next-IsStuck_from s calls (start key no_listening s) (start-fails s key h)
