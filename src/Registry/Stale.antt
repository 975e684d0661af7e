-- ===== src/Registry/Stale.antt =====
-- What the generation counter is for: the cleanup of a connection that was displaced.
use imaged.Base.{ℕ, ◌≡◌, none, some, arith, All, ◌≢◌, List, [], ◌∷◌, ◌⊎◌}
use imaged.Base.Assoc.{get, insert, get-insert, get-remove}
use imaged.Registry.{
  HostRegistry, HostEntry, Call, registers, cleans_up, deregisters, disconnects_all, register,
  cleanup, broadcast, deregister, dispatch, step, run,
}

module _ {S : Type 0} where
  get-register :
      (id : ℕ) (s : S) (r : HostRegistry S)
      → get id (register id s r).hosts.map
        ≡ some (record { generation = r.hosts.next_generation; dispatch = s })
  unfolding register broadcast
  get-register id s r = ground (
    arith,
    get-insert id id (record { generation = r.hosts.next_generation; dispatch = s }) r.hosts.map,
  )

  -- A call that does not concern the connection of host `id` with generation `g`: it neither
  -- registers nor deregisters the host, and cleans up at most other generations of it.
  abbrev pub Spares : ℕ → ℕ → Call S → Type 0
  Spares id g (registers j s) = j ≢ id
  Spares id g (cleans_up j h) = (j ≢ id) ⊎ (h ≢ g)
  Spares id g (deregisters j) = j ≢ id
  Spares id g disconnects_all = ⊥

  get-step :
      (id : ℕ) (e : HostEntry S) (c : Call S) (r : HostRegistry S)
      → Spares id e.generation c
      → get id r.hosts.map ≡ some e
      → get id (step c r).hosts.map ≡ some e
  unfolding step register cleanup deregister
  get-step id e (registers j s) r sp h = ground (
    arith,
    get-insert j id (record { generation = r.hosts.next_generation; dispatch = s }) r.hosts.map,
  )
  get-step id e (cleans_up j g) r sp h = ground (arith, get-remove j id r.hosts.map)
  get-step id e (deregisters j) r sp h = ground (arith, get-remove j id r.hosts.map)
  get-step id e disconnects_all r sp h = absurd sp

  get-run :
      (id : ℕ) (e : HostEntry S) (cs : List (Call S)) (r : HostRegistry S)
      → All (Spares id e.generation) cs
      → get id r.hosts.map ≡ some e
      → get id (run cs r).hosts.map ≡ some e
  unfolding run
  get-run id e [] r sp h = h
  get-run id e (c ∷ cs) r sp h = get-run id e cs (step c r) sp.1 (get-step id e c r sp.0 h)

  -- A registered connection keeps receiving the dispatches of its host through every sequence of
  -- calls that spares it, the cleanups of the host's displaced connections among them.
  pub dispatch-run :
      (id : ℕ) (s : S) (r : HostRegistry S) (cs : List (Call S))
      → All (Spares id r.hosts.next_generation) cs
      → dispatch id (run cs (register id s r)) ≡ some s
  unfolding dispatch
  dispatch-run id s r cs sp =
      let e : HostEntry S = record { generation = r.hosts.next_generation; dispatch = s } in
      rw (get-run id e cs (register id s r) sp (get-register id s r), dispatch)

  -- The drop of a registration that is still the host's own ends its connection: no dispatch
  -- reaches the host any more.
  dispatch-cleanup :
      (id : ℕ) (s : S) (r : HostRegistry S)
      → dispatch id (cleanup id r.hosts.next_generation (register id s r)) ≡ none
  unfolding dispatch cleanup register
  dispatch-cleanup id s r =
      let e : HostEntry S = record { generation = r.hosts.next_generation; dispatch = s } in
      ground (arith, get-insert id id e r.hosts.map, get-remove id id (insert id e r.hosts.map))
