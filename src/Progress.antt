-- ===== src/Progress.antt =====
-- The board of running transfers (crates/core/src/progress.rs, crates/model/src/progress.rs,
-- crates/model/src/multicast.rs).
-- `F` stands for floating-point numbers, which the board only passes on. A `HashMap` or a
-- `BTreeMap` is an association list, and what iterates over a `BTreeMap` sorts it first. Each
-- method gives the new snapshot and whether the watchers are told.
pub mod Grouped
mod Tests
use imaged.Base.{
  ℕ, Bool, true, false, Option, none, some, List, [], ◌∷◌, map, ltb, if◌then◌else◌, is_some,
}
use imaged.Base.Assoc.{Assoc, get, insert, remove, has}
use imaged.Text.{Text}

pub data Stage (F : Type 0) : Type 0 where
  partition_table finishing : Stage F
  partition : ℕ → ℕ → ℕ → F → Option ℕ → Stage F

pub record HostProgress (F : Type 0) : Type 0 where
  pub task_id : ℕ
  pub fraction : F
  pub stage : Stage F

pub data TransferPhase : Type 0 where
  gathering sending draining : TransferPhase

pub record ReceiverProgress (F : Type 0) : Type 0 where
  pub host_id : ℕ
  pub name : Text
  pub joined : Bool
  pub limiting : Bool
  pub slices_behind : ℕ
  pub loss : F
  pub naks : ℕ
  pub sink_stall_ms : ℕ

pub record MulticastProgress (F : Type 0) : Type 0 where
  pub task_id : ℕ
  pub phase : TransferPhase
  pub bytes_per_second : F
  pub step : ℕ
  pub steps : ℕ
  pub eta : Option ℕ
  pub receivers : List (ReceiverProgress F)

pub record TaskProgress (F : Type 0) : Type 0 where
  pub task_id : ℕ
  pub hosts : Assoc (HostProgress F)
  pub multicast : Option (MulticastProgress F)

pub record Snapshot (F : Type 0) : Type 0 where
  pub hosts : Assoc (HostProgress F)
  pub multicast : Option (MulticastProgress F)

-- Iteration in the order of the keys.
module _ {ℓ} {V : Type ℓ} where
  abbrev insert_entry : ℕ × V → Assoc V → Assoc V
  insert_entry e [] = e ∷ []
  insert_entry e (d ∷ m) =
      let rest = insert_entry e m in if ltb d.0 e.0 then d ∷ rest else e ∷ d ∷ m

  abbrev sort_entries : Assoc V → Assoc V
  sort_entries [] = []
  sort_entries (e ∷ m) = insert_entry e (sort_entries m)

module _ {F : Type 0} where
  -- `TaskProgress::new`.
  abbrev pub new : ℕ → TaskProgress F
  new task_id = record { task_id = task_id; hosts = []; multicast = none }

  or_new : ℕ → Option (TaskProgress F) → TaskProgress F
  or_new task_id none = new task_id
  or_new task_id (some t) = t

  -- `entry(task_id).or_insert_with(…)`, and a change to the entry.
  modify : ℕ → (TaskProgress F → TaskProgress F) → Assoc (TaskProgress F) → Assoc (TaskProgress F)
  unfolding or_new
  modify task_id f m = insert task_id (f (or_new task_id (get task_id m))) m

  add_hosts : Assoc (HostProgress F) → Assoc (TaskProgress F) → Assoc (TaskProgress F)
  unfolding modify
  add_hosts [] tasks = tasks
  add_hosts ((host_id, progress) ∷ hosts) tasks =
      add_hosts hosts
        (modify progress.task_id (λ t. record t { hosts = insert host_id progress t.hosts }) tasks)

  add_multicast : Option (MulticastProgress F) → Assoc (TaskProgress F) → Assoc (TaskProgress F)
  unfolding modify
  add_multicast none tasks = tasks
  add_multicast (some m) tasks = modify m.task_id (λ t. record t { multicast = some m }) tasks

  -- The map that `Snapshot::tasks` fills.
  unfoldable pub grouped : Snapshot F → Assoc (TaskProgress F)
  unfolding add_hosts add_multicast
  grouped s = add_multicast s.multicast (add_hosts s.hosts [])

  unfoldable pub tasks : Snapshot F → List (TaskProgress F)
  unfolding grouped
  tasks s = map (λ e. e.1) (sort_entries (grouped s))

  unfoldable pub report : ℕ → HostProgress F → Snapshot F → Snapshot F × Bool
  report host_id progress s = (record s { hosts = insert host_id progress s.hosts }, true)

  unfoldable pub forget : ℕ → Snapshot F → Snapshot F × Bool
  forget host_id s = (record s { hosts = remove host_id s.hosts }, has host_id s.hosts)

  unfoldable pub report_multicast : MulticastProgress F → Snapshot F → Snapshot F × Bool
  report_multicast progress s = (record s { multicast = some progress }, true)

  unfoldable pub end_multicast : Snapshot F → Snapshot F × Bool
  end_multicast s = (record s { multicast = none }, is_some s.multicast)
