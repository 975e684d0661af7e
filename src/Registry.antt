-- ===== src/Registry.antt =====
-- The registry of connected hosts (crates/core/src/registry.rs).
-- Each method holds the write lock for its whole body, so it is one step from state to state.
-- `mpsc::channel(1)` is tokio's: the sender of a registration is a value of a type `S`, which
-- `register` is handed. `broadcast.send` appends to `sent`, the log of all events, oldest first;
-- a subscriber starts at the log's end. `HashMap::drain` yields in the order of the list.
-- Generations are `u64` and counted without wrapping: 2 ^ 64 registrations are out of reach.
pub mod Stale
pub mod Feed
mod Tests
use imaged.Base.{
  ℕ, suc, ◌+◌, Bool, true, false, Option, none, some, List, [], ◌∷◌, ◌++◌, ◌==◌, if◌then◌else◌, map,
}
use imaged.Base.Assoc.{Assoc, get, insert, remove, keys}

pub record HostConnectionEvent : Type 0 where
  pub id : ℕ
  pub connected : Bool

pub record HostEntry (S : Type 0) : Type 0 where
  pub generation : ℕ
  pub dispatch : S

pub record Hosts (S : Type 0) : Type 0 where
  pub map : Assoc (HostEntry S)
  pub next_generation : ℕ

pub record HostRegistry (S : Type 0) : Type 0 where
  pub hosts : Hosts S
  pub sent : List HostConnectionEvent

abbrev pub disconnections : List ℕ → List HostConnectionEvent
disconnections [] = []
disconnections (id ∷ ids) = record { id = id; connected = false } ∷ disconnections ids

module _ {S : Type 0} where
  -- `HostRegistry::default`.
  pub initial : HostRegistry S
  initial = record { hosts = record { map = []; next_generation = 0 }; sent = [] }

  broadcast : HostRegistry S → HostConnectionEvent → HostRegistry S
  broadcast r e = record r { sent = r.sent ++ e ∷ [] }

  -- The registration's generation is `r.hosts.next_generation`; its `cleanup` is `cleanup` below.
  pub register : ℕ → S → HostRegistry S → HostRegistry S
  unfolding broadcast
  register id dispatch r =
      broadcast
        (record r {
          hosts = record {
            map =
                insert id (record { generation = r.hosts.next_generation; dispatch = dispatch })
                  r.hosts.map;
            next_generation = r.hosts.next_generation + 1;
          };
        })
        (record { id = id; connected = true })

  -- `get(&id).is_some_and(|e| e.generation == generation)`.
  pub is_registered : ℕ → ℕ → HostRegistry S → Bool
  is_registered id generation r = elim (get id r.hosts.map) [
    | none ↦ false
    | some e ↦ e.generation == generation
  ]

  take_out : ℕ → HostRegistry S → HostRegistry S
  unfolding broadcast
  take_out id r =
      broadcast (record r { hosts = record (r.hosts) { map = remove id r.hosts.map } })
        (record { id = id; connected = false })

  -- What the drop of a `Registration` runs.
  pub cleanup : ℕ → ℕ → HostRegistry S → HostRegistry S
  unfolding is_registered take_out
  cleanup id generation r = if is_registered id generation r then take_out id r else r

  pub deregister : ℕ → HostRegistry S → HostRegistry S
  unfolding take_out
  deregister id r = elim (get id r.hosts.map) [ none ↦ r | some e ↦ take_out id r ]

  pub disconnect_all : HostRegistry S → HostRegistry S
  disconnect_all r = record {
    hosts = record (r.hosts) { map = [] };
    sent = r.sent ++ disconnections (keys r.hosts.map);
  }

  -- The sender whose `try_send` is called.
  pub dispatch : ℕ → HostRegistry S → Option S
  dispatch host_id r = elim (get host_id r.hosts.map) [ none ↦ none | some e ↦ some e.dispatch ]

  pub connected_hosts : HostRegistry S → List ℕ
  connected_hosts r = keys r.hosts.map

pub data Call (S : Type 0) : Type 0 where
  registers : ℕ → S → Call S
  cleans_up : ℕ → ℕ → Call S
  deregisters : ℕ → Call S
  disconnects_all : Call S

module _ {S : Type 0} where
  pub step : Call S → HostRegistry S → HostRegistry S
  step (registers id s) r = register id s r
  step (cleans_up id generation) r = cleanup id generation r
  step (deregisters id) r = deregister id r
  step disconnects_all r = disconnect_all r

  pub run : List (Call S) → HostRegistry S → HostRegistry S
  run [] r = r
  run (c ∷ cs) r = run cs (step c r)
