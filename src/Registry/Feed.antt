-- ===== src/Registry/Feed.antt =====
-- What a subscriber of the registry sees (crates/core/src/registry.rs, `ConnectionFeed`).
-- `recv` of tokio's broadcast receiver is an argument of `next`: the event after the last one
-- received, the notice that events were lost, or the end.
use imaged.Base.{
  ℕ, ◌+◌, ◌≡◌, refl, sym, ap, ◌∙◌, Option, none, some, arith, ◌==◌, if◌then◌else◌, List, [], ◌∷◌,
  ◌++◌, Bool, true, false, Bool-cases, Option-cases, inl, inr, length, drop, any,
  drop-append_length,
}
use mathlib.Core.List.{append-nil, append_assoc}
use imaged.Base.Assoc.{Assoc, get, insert, keys, has, get-insert, get-remove}
use imaged.Registry.{
  HostConnectionEvent, HostEntry, HostRegistry, Call, registers, cleans_up, deregisters,
  disconnects_all, register, is_registered, cleanup, take_out, broadcast, deregister,
  disconnections, disconnect_all, connected_hosts, step, run,
}

pub data ConnectionChange : Type 0 where
  connected : List ℕ → ConnectionChange
  changed : HostConnectionEvent → ConnectionChange

pub data Recv : Type 0 where
  received : HostConnectionEvent → Recv
  lagged : Recv
  closed : Recv

-- `updates` is the number of events that the receiver has behind it.
pub record ConnectionFeed : Type 0 where
  pub updates : ℕ
  pub connected : Option (List ℕ)

take_snapshot : ConnectionFeed → List ℕ → Option ConnectionChange × ConnectionFeed
take_snapshot f hosts = (some (ConnectionChange.connected hosts), record f { connected = none })

module _ {S : Type 0} where
  pub watch : HostRegistry S → ConnectionFeed
  watch r = record { updates = length r.sent; connected = some (connected_hosts r) }

  -- The loop is left after one round, or after two if events were lost: a resubscribed feed holds
  -- a snapshot.
  pub next : Recv → HostRegistry S → ConnectionFeed → Option ConnectionChange × ConnectionFeed
  unfolding watch take_snapshot
  next recv r f = elim (f.connected) [
    | some hosts ↦ take_snapshot f hosts
    | none ↦ elim recv [
      | received e ↦ (some (changed e), record f { updates = f.updates + 1 })
      | lagged ↦ take_snapshot (watch r) (connected_hosts r)
      | closed ↦ (none, f)
    ]
  ]

-- The dashboard's consumer (crates/web/src/components/connection.rs).
abbrev pub Connections : Type 0
Connections = Assoc Bool

pub collect : List ℕ → Connections
collect [] = []
collect (id ∷ ids) = insert id true (collect ids)

pub on_change : ConnectionChange → Connections → Connections
unfolding collect
on_change (ConnectionChange.connected hosts) m = collect hosts
on_change (changed e) m = insert e.id e.connected m

pub use_connection : ℕ → Connections → Bool
use_connection id m = elim (get id m) [ none ↦ false | some b ↦ b ]

pub on_events : List HostConnectionEvent → Connections → Connections
on_events [] m = m
on_events (e ∷ es) m = on_events es (on_change (changed e) m)

on_events-append :
    (es fs : List HostConnectionEvent) (m : Connections)
    → on_events (es ++ fs) m ≡ on_events fs (on_events es m)
unfolding on_events
on_events-append [] fs m = refl
on_events-append (e ∷ es) fs m = on_events-append es fs (on_change (changed e) m)

use_connection-collect :
    {V : Type 0} (a : Assoc V) (id : ℕ) → use_connection id (collect (keys a)) ≡ has id a
unfolding use_connection collect keys get
use_connection-collect [] id = refl
use_connection-collect ((j, v) ∷ a) id =
    ground (arith, get-insert j id true (collect (keys a)), use_connection-collect a id)

use_connection-changed :
    (e : HostConnectionEvent) (m : Connections) (id : ℕ)
    → use_connection id (on_change (changed e) m)
      ≡ (if e.id == id then e.connected else use_connection id m)
unfolding use_connection on_change
use_connection-changed e m id = ground (arith, get-insert e.id id e.connected m)

use_connection-disconnections :
    (ids : List ℕ) (m : Connections) (id : ℕ)
    → use_connection id (on_events (disconnections ids) m)
      ≡ (if any (λ h. h == id) ids then false else use_connection id m)
unfolding on_events
use_connection-disconnections [] m id = refl
use_connection-disconnections (j ∷ ids) m id =
    let e : HostConnectionEvent = record { id = j; connected = false } in
    ground (
      arith,
      use_connection-disconnections ids (on_change (changed e) m) id,
      use_connection-changed e m id,
    )

any-keys : {V : Type 0} (a : Assoc V) (id : ℕ) → any (λ h. h == id) (keys a) ≡ has id a
unfolding keys get
any-keys [] id = refl
any-keys ((j, v) ∷ a) id = ground (arith, any-keys a id)

-- The dashboard shows each host as the registry has it.
abbrev pub Agrees : {S : Type 0} → Connections → HostRegistry S → Type 0
Agrees m r = (id : ℕ) → use_connection id m ≡ has id r.hosts.map

-- The events that lead from one state of the registry to the next, and what they tell.
abbrev Tells : {S : Type 0} → HostRegistry S → HostRegistry S → Type 0
Tells r q =
    (es : List HostConnectionEvent) × (q.sent ≡ r.sent ++ es)
    × ((m : Connections) → Agrees m r → Agrees (on_events es m) q)

module _ {S : Type 0} where
  quiet-Tells : (r : HostRegistry S) → Tells r r
  unfolding on_events
  quiet-Tells r = ([], sym (append-nil r.sent), λ m h. h)

  take_out-Tells : (id : ℕ) (r : HostRegistry S) → Tells r (take_out id r)
  unfolding take_out broadcast on_events
  take_out-Tells id r =
      let e : HostConnectionEvent = record { id = id; connected = false } in
      (
        e ∷ [],
        refl,
        λ m h j. ground (arith, h j, use_connection-changed e m j, get-remove id j r.hosts.map),
      )

  register-Tells : (id : ℕ) (s : S) (r : HostRegistry S) → Tells r (register id s r)
  unfolding register broadcast on_events
  register-Tells id s r =
      let e : HostConnectionEvent = record { id = id; connected = true } in
      let v : HostEntry S = record { generation = r.hosts.next_generation; dispatch = s } in
      (
        e ∷ [],
        refl,
        λ m h j. ground (arith, h j, use_connection-changed e m j, get-insert id j v r.hosts.map),
      )

  disconnect_all-Tells : (r : HostRegistry S) → Tells r (disconnect_all r)
  unfolding disconnect_all get
  disconnect_all-Tells r = (
    disconnections (keys r.hosts.map),
    refl,
    λ m h j.
        ground (
          arith,
          h j,
          use_connection-disconnections (keys r.hosts.map) m j,
          any-keys r.hosts.map j,
        ),
  )

  step-Tells : (c : Call S) (r : HostRegistry S) → Tells r (step c r)
  unfolding step cleanup deregister
  step-Tells (registers id s) r = register-Tells id s r
  step-Tells (cleans_up id g) r = elim (Bool-cases (is_registered id g r)) [
    | inl e ↦ rw (e, cleanup, is_registered) (take_out-Tells id r)
    | inr e ↦ rw (e, cleanup) (quiet-Tells r)
  ]
  step-Tells (deregisters id) r = elim (Option-cases (get id r.hosts.map)) [
    | inl e ↦ rw (e, deregister) (quiet-Tells r)
    | inr (v, e) ↦ rw (e, deregister) (take_out-Tells id r)
  ]
  step-Tells disconnects_all r = disconnect_all-Tells r

  run-Tells : (cs : List (Call S)) (r : HostRegistry S) → Tells r (run cs r)
  unfolding run
  run-Tells [] r = quiet-Tells r
  run-Tells (c ∷ cs) r =
      let (es, sent_e, tell_e) = step-Tells c r in
      let (fs, sent_f, tell_f) = run-Tells cs (step c r) in
      (
        es ++ fs,
        sent_f ∙ ap (λ t. t ++ fs) sent_e ∙ append_assoc r.sent es fs,
        λ m h j. rw (on_events-append es fs m) (tell_f (on_events es m) (tell_e m h) j),
      )

  -- A dashboard that takes the snapshot of a new feed, and then every event broadcast since,
  -- shows each host as connected exactly if the registry has it, whatever calls came in between.
  pub use_connection-run :
      (cs : List (Call S)) (r : HostRegistry S) (before : Connections) (id : ℕ)
      → use_connection id (
          on_events
            (drop (watch r).updates (run cs r).sent)
            (on_change (ConnectionChange.connected (connected_hosts r)) before))
        ≡ has id (run cs r).hosts.map
  unfolding watch on_change connected_hosts
  use_connection-run cs r before id =
      let (es, sent, tell) = run-Tells cs r in
      rw (sent, drop-append_length r.sent es)
        (tell (collect (keys r.hosts.map)) (use_connection-collect r.hosts.map) id)

  -- A feed that lost events hands out a snapshot that brings the dashboard to the registry's state.
  pub next-lagged :
      (r : HostRegistry S) (f : ConnectionFeed) (before : Connections) (id : ℕ)
      → f.connected ≡ none
      → (c : ConnectionChange) × ((next lagged r f).0 ≡ some c)
        × (use_connection id (on_change c before) ≡ has id r.hosts.map)
        × ((next lagged r f).1 ≡ record { updates = length r.sent; connected = none })
  unfolding next on_change connected_hosts
  next-lagged r f before id h = (
    ConnectionChange.connected (keys r.hosts.map),
    rw (h, next),
    use_connection-collect r.hosts.map id,
    rw (h, next),
  )
