-- ===== src/Multicast/Settle.antt =====
-- After the settling of a session no host is left running without its agent, or at all if the
-- session failed.
use mathlib.Core.Path.{subst}
use imaged.Base.{
  ℕ, Bool, true, false, not, ◌&&◌, ◌≡◌, refl, arith, Option, none, some, List, [], ◌∷◌, ◌==◌, elem,
  any, any-update_where_none, ◌||◌, find, All, Bool-cases, Option-cases, inl, inr, ==→eq,
  any-update_where, update_where,
}
use imaged.Text.{Text}
use imaged.Error.{AppError, ok, display}
use imaged.Task.{running, failed, multicast, multicast_partition, is_state, is_active, hosts_in}
use imaged.Store.{TaskRow, TaskHostRow, Db, of_task, is_row, mark_failed, fail_running, has_type}
use imaged.Store.Transitions.{Rows}
use imaged.Store.Views.{to_task, RefersTo}
use imaged.Store.Queries.{get, fetch_one}
use imaged.Registry.{HostRegistry, connected_hosts}
use imaged.Multicast.{
  settle, settle_host, settle_hosts, running_hosts, disconnected, fail_orphans, orphaned,
}
use imaged.Multicast.Rows.{
  left_out, mark_failed-left_out, Touches, Rows-trans, Rows-refl, mark_failed-Touches,
}
use imaged.Multicast.Listed.{hosts_in-left_out}

-- A running row of the task whose host is neither on the list nor connected.
abbrev unsettled : ℕ → List ℕ → List ℕ → TaskHostRow → Bool
unsettled t connected hs r = left_out running t hs r && not (elem r.host_id connected)

abbrev failed_row : ℕ → Text → TaskHostRow → TaskHostRow
failed_row now error r = record r { state = failed; finished_at = some now; error = some error }

mark_failed-unsettled :
    (now t h : ℕ) (error : Text) (connected hs : List ℕ) (db : Db)
    → any (unsettled t connected (h ∷ hs)) db.task_hosts ≡ false
    → any (unsettled t connected hs) (mark_failed now t h error db).task_hosts ≡ false
unfolding mark_failed
mark_failed-unsettled now t h error connected hs db =
    any-update_where (unsettled t connected (h ∷ hs)) (unsettled t connected hs)
      (λ r. is_row t h r && is_active r.state) (failed_row now error) (λ r e. ground arith)
      db.task_hosts

any-mono_false :
    (p q : TaskHostRow → Bool) (rows : List TaskHostRow)
    → ((r : TaskHostRow) → p r ≡ false → q r ≡ false)
    → any p rows ≡ false
    → any q rows ≡ false
any-mono_false p q [] h e = refl
any-mono_false p q (r ∷ rows) h e = ground (arith, h r, any-mono_false p q rows h)

connected-unsettled :
    (t h : ℕ) (connected hs : List ℕ) (rows : List TaskHostRow)
    → elem h connected ≡ true
    → any (unsettled t connected (h ∷ hs)) rows ≡ false
    → any (unsettled t connected hs) rows ≡ false
connected-unsettled t h connected hs rows c = any-mono_false _ _ rows λ r e.
    elim (Bool-cases (h == r.host_id)) [
      | inl same ↦
          rw (subst (λ k. elem k connected ≡ true) (==→eq h r.host_id same) c) (ground arith)
      | inr other ↦ ground (arith, e, other)
    ]

settle_host-unsettled :
    (now t : ℕ) (failure : Option AppError) (connected : List ℕ) (h : ℕ) (hs : List ℕ) (db : Db)
    → any (unsettled t connected (h ∷ hs)) db.task_hosts ≡ false
    → any (unsettled t connected hs) (settle_host now t failure connected h db).task_hosts ≡ false
unfolding settle_host
settle_host-unsettled now t (some e) connected h hs db u =
    mark_failed-unsettled now t h (display e) connected hs db u
settle_host-unsettled now t none connected h hs db u = elim (Bool-cases (elem h connected)) [
  | inl there ↦ rw there (connected-unsettled t h connected hs db.task_hosts there u)
  | inr gone ↦ rw gone (mark_failed-unsettled now t h disconnected connected hs db u)
]

settle_hosts-unsettled :
    (now : ℕ → ℕ) (t : ℕ) (failure : Option AppError) (connected hs : List ℕ) (db : Db)
    → any (unsettled t connected hs) db.task_hosts ≡ false
    → any (unsettled t connected []) (settle_hosts now t failure connected hs db).task_hosts ≡ false
unfolding settle_hosts
settle_hosts-unsettled now t failure connected [] db u = u
settle_hosts-unsettled now t failure connected (h ∷ hs) db u =
    settle_hosts-unsettled now t failure connected hs _
      (settle_host-unsettled (now h) t failure connected h hs db u)

-- With a failure the connected hosts do not matter.
settle_hosts-left_out :
    (now : ℕ → ℕ) (t : ℕ) (e : AppError) (connected hs : List ℕ) (db : Db)
    → any (left_out running t hs) db.task_hosts ≡ false
    → any (left_out running t []) (settle_hosts now t (some e) connected hs db).task_hosts ≡ false
unfolding settle_hosts settle_host
settle_hosts-left_out now t e connected [] db u = u
settle_hosts-left_out now t e connected (h ∷ hs) db u =
    settle_hosts-left_out now t e connected hs _
      (mark_failed-left_out running (now h) t h (display e) hs db refl u)

settle_host-Touches :
    (now t : ℕ) (failure : Option AppError) (connected : List ℕ) (h : ℕ) (db : Db)
    → Rows (Touches t) db.task_hosts (settle_host now t failure connected h db).task_hosts
unfolding settle_host
settle_host-Touches now t (some e) connected h db = mark_failed-Touches now t h (display e) db
settle_host-Touches now t none connected h db = elim (Bool-cases (elem h connected)) [
  | inl there ↦ rw there (Rows-refl t db.task_hosts)
  | inr gone ↦ rw gone (mark_failed-Touches now t h disconnected db)
]

-- Settling changes rows of its task only, and makes no row pending.
pub settle_hosts-Touches :
    (now : ℕ → ℕ) (t : ℕ) (failure : Option AppError) (connected hs : List ℕ) (db : Db)
    → Rows (Touches t) db.task_hosts (settle_hosts now t failure connected hs db).task_hosts
unfolding settle_hosts
settle_hosts-Touches now t failure connected [] db = Rows-refl t db.task_hosts
settle_hosts-Touches now t failure connected (h ∷ hs) db =
    Rows-trans t db.task_hosts (settle_host (now h) t failure connected h db).task_hosts _
      (settle_host-Touches (now h) t failure connected h db)
      (settle_hosts-Touches now t failure connected hs
        (settle_host (now h) t failure connected h db))

running_hosts-left_out :
    (t : TaskRow) (db : Db)
    → find (λ u. u.id == t.id) db.tasks ≡ some t
    → All (RefersTo db.hosts) db.task_hosts
    → (hosts : List ℕ) × (running_hosts t.id db ≡ ok hosts)
      × (any (left_out running t.id hosts) db.task_hosts ≡ false)
unfolding running_hosts get
running_hosts-left_out t db found v =
    (hosts_in running (to_task db t), rw (found, fetch_one) refl, hosts_in-left_out running db t v)

-- The hosts of a task that is there are found.
running_hosts-ok :
    (t : ℕ) (db : Db)
    → any (λ u. u.id == t) db.tasks ≡ true
    → (hosts : List ℕ) × (running_hosts t db ≡ ok hosts)
unfolding running_hosts get
running_hosts-ok t db there = elim (Option-cases (find (λ u. u.id == t) db.tasks)) [
  | inl e ↦ absurd (missing db.tasks e there)
  | inr (u, e) ↦ (hosts_in running (to_task db u), rw (e, fetch_one) refl)
]
  where
    missing :
        (ts : List TaskRow) → find (λ u. u.id == t) ts ≡ none → any (λ u. u.id == t) ts ≡ true → ⊥
    missing [] e h = cc
    missing (u ∷ ts) e h = ground (arith, missing ts)

module _ {S : Type 0} (registry : HostRegistry S) where
  -- Settling a task that is there returns.
  pub settle-ok :
      (now : ℕ → ℕ) (t : ℕ) (failure : Option AppError) (db : Db)
      → any (λ u. u.id == t) db.tasks ≡ true
      → (hosts : List ℕ) × (settle registry now t failure db
          ≡ ok (settle_hosts now t failure (connected_hosts registry) hosts db))
  unfolding settle
  settle-ok now t failure db there =
      let (hosts, e) = running_hosts-ok t db there in (hosts, rw e refl)

  -- If the task of a failed session is there, settling it returns, and no row of it is running
  -- afterwards.
  pub settle_failed :
      (now : ℕ → ℕ) (t : TaskRow) (e : AppError) (db : Db)
      → find (λ u. u.id == t.id) db.tasks ≡ some t
      → All (RefersTo db.hosts) db.task_hosts
      → (d : Db) × (settle registry now t.id (some e) db ≡ ok d)
        × (any (λ r. of_task t.id r && is_state r.state running) d.task_hosts ≡ false)
  unfolding settle
  settle_failed now t e db found v =
      let (hosts, read, all) = running_hosts-left_out t db found v in
      (
        settle_hosts now t.id (some e) (connected_hosts registry) hosts db,
        rw read refl,
        any-mono_false (left_out running t.id []) _ _ (λ r h. ground arith)
            (settle_hosts-left_out now t.id e (connected_hosts registry) hosts db all),
      )

  -- If the task of a session without failure is there, settling it returns, and each row of the
  -- task that is running afterwards is one of a host that is connected.
  pub settle_done :
      (now : ℕ → ℕ) (t : TaskRow) (db : Db)
      → find (λ u. u.id == t.id) db.tasks ≡ some t
      → All (RefersTo db.hosts) db.task_hosts
      → (d : Db) × (settle registry now t.id none db ≡ ok d)
        × (any
              (λ r.
                of_task t.id r
                && (is_state r.state running && not (elem r.host_id (connected_hosts registry))))
              d.task_hosts
            ≡ false)
  unfolding settle
  settle_done now t db found v =
      let (hosts, read, all) = running_hosts-left_out t db found v in
      (
        settle_hosts now t.id none (connected_hosts registry) hosts db,
        rw read refl,
        any-mono_false (unsettled t.id (connected_hosts registry) []) _ _ (λ r h. ground arith)
            (settle_hosts-unsettled now t.id none (connected_hosts registry) hosts db
              (any-mono_false _ _ db.task_hosts (λ r h. ground (arith, h)) all)),
      )

-- A running row of a multicast task.
abbrev pub is_orphan : Db → TaskHostRow → Bool
is_orphan db r =
    is_state r.state running
    && (has_type multicast db r.task_id || has_type multicast_partition db r.task_id)

-- When the worker starts, no host is running a multicast task any more.
pub fail_orphans_lem :
    (now : ℕ) (db : Db) → any (is_orphan db) (fail_orphans now db).task_hosts ≡ false
unfolding fail_orphans fail_running
fail_orphans_lem now db =
    any-update_where (λ r. is_state r.state running && has_type multicast db r.task_id)
      (is_orphan db) (λ r. is_state r.state running && has_type multicast_partition db r.task_id)
      (failed_row now orphaned) (λ r e. ground arith)
      (update_where (λ r. is_state r.state running && has_type multicast db r.task_id)
        (failed_row now orphaned) db.task_hosts)
      (any-update_where_none (λ r. is_state r.state running && has_type multicast db r.task_id)
        (λ r. is_state r.state running && has_type multicast db r.task_id) (failed_row now orphaned)
        (λ r. ground arith) db.task_hosts)
