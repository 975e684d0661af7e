-- ===== src/Multicast/Drain.antt =====
-- The worker's inner loop comes to its end.
use mathlib.Core.Path.{subst}
use mathlib.Core.Option.{some-injective}
use mathlib.Core.List.{Memᴰ}
use imaged.Base.{
  ℕ, zero, suc, ◌≤◌, ◌<◌, Bool, refl, true, ◌&&◌, ◌≡◌, arith, Option, none, some, List, [], ◌∷◌,
  ◌==◌, any, All, All-update_where, Bool-cases, Option-cases, inl, inr, suc, ap, sym, ◌∙◌, elem,
}
use imaged.Base.Least.{least, least-mem}
use imaged.Base.Members.{mem-keep}
use imaged.Text.{Text}
use imaged.Error.{AppError, Result, display}
use imaged.Task.{pending, running, failed, multicasts, Task, is_state, is_active, hosts_in}
use imaged.Store.{TaskRow, Db, of_task, is_row, start, mark_failed}
use imaged.Store.Views.{to_task, RefersTo}
use imaged.Store.Queries.{
  get_next, get_next_multicast, queued_multicasts, older, has_row, fetch_optional,
}
use imaged.Registry.{HostRegistry, connected_hosts}
use imaged.Multicast.{
  claim_with, claim_host, claim_hosts, claim, settle_host, settle_hosts, failure_of, run_session,
  drain, disconnected, busy_with,
}
use imaged.Multicast.Rows.{count_pending, count_pending-le, count_pending-lt}
use imaged.Multicast.Turns.{claim_with-tasks}
use imaged.Multicast.Claim.{claim-Touches, claim-pending}
use imaged.Multicast.Settle.{settle-ok, settle_hosts-Touches}

-- Every row of `task_hosts` refers to a host.
abbrev pub IsSound : Db → Type 0
IsSound db = All (RefersTo db.hosts) db.task_hosts

start-IsSound : (now t h : ℕ) (db : Db) → IsSound db → IsSound (start now t h db)
unfolding start
start-IsSound now t h db v =
    All-update_where (RefersTo db.hosts) (λ r. is_row t h r && is_active r.state)
      (λ r. record r { state = running; started_at = some now }) (λ r e x. x) db.task_hosts v

mark_failed-IsSound :
    (now t h : ℕ) (error : Text) (db : Db) → IsSound db → IsSound (mark_failed now t h error db)
unfolding mark_failed
mark_failed-IsSound now t h error db v =
    All-update_where (RefersTo db.hosts) (λ r. is_row t h r && is_active r.state)
      (λ r. record r { state = failed; finished_at = some now; error = some error }) (λ r e x. x)
      db.task_hosts v

claim_with-IsSound :
    (next : Option Task) (now : ℕ) (task : Task) (h : ℕ) (db : Db)
    → IsSound db
    → IsSound (claim_with next now task h db)
unfolding claim_with
claim_with-IsSound none now task h db v = start-IsSound now task.id h db v
claim_with-IsSound (some next) now task h db v = elim (Bool-cases (next.id == task.id)) [
  | inl same ↦ rw same (start-IsSound now task.id h db v)
  | inr busy ↦ rw busy (mark_failed-IsSound now task.id h (busy_with next) db v)
]

claim_hosts-IsSound :
    (now : ℕ → ℕ) (task : Task) (hs : List ℕ) (db : Db)
    → IsSound db
    → IsSound (claim_hosts now task hs db)
unfolding claim_hosts claim_host
claim_hosts-IsSound now task [] db v = v
claim_hosts-IsSound now task (h ∷ hs) db v =
    claim_hosts-IsSound now task hs (claim_with (get_next h db) (now h) task h db)
      (claim_with-IsSound (get_next h db) (now h) task h db v)

claim-IsSound : (now : ℕ → ℕ) (task : Task) (db : Db) → IsSound db → IsSound (claim now task db)
unfolding claim
claim-IsSound now task db v = claim_hosts-IsSound now task (hosts_in pending task) db v

settle_host-IsSound :
    (now t : ℕ) (failure : Option AppError) (connected : List ℕ) (h : ℕ) (db : Db)
    → IsSound db
    → IsSound (settle_host now t failure connected h db)
unfolding settle_host
settle_host-IsSound now t (some e) connected h db v = mark_failed-IsSound now t h (display e) db v
settle_host-IsSound now t none connected h db v = elim (Bool-cases (elem h connected)) [
  | inl there ↦ rw there v
  | inr gone ↦ rw gone (mark_failed-IsSound now t h disconnected db v)
]

settle_hosts-IsSound :
    (now : ℕ → ℕ) (t : ℕ) (failure : Option AppError) (connected hs : List ℕ) (db : Db)
    → IsSound db
    → IsSound (settle_hosts now t failure connected hs db)
unfolding settle_hosts
settle_hosts-IsSound now t failure connected [] db v = v
settle_hosts-IsSound now t failure connected (h ∷ hs) db v =
    settle_hosts-IsSound now t failure connected hs (settle_host (now h) t failure connected h db)
      (settle_host-IsSound (now h) t failure connected h db v)

claim_hosts-tasks :
    (now : ℕ → ℕ) (task : Task) (hs : List ℕ) (db : Db)
    → (claim_hosts now task hs db).tasks ≡ db.tasks
unfolding claim_hosts claim_host
claim_hosts-tasks now task [] db = refl
claim_hosts-tasks now task (h ∷ hs) db =
    claim_hosts-tasks now task hs (claim_with (get_next h db) (now h) task h db)
    ∙ claim_with-tasks (get_next h db) (now h) task h db

claim-tasks : (now : ℕ → ℕ) (task : Task) (db : Db) → (claim now task db).tasks ≡ db.tasks
unfolding claim
claim-tasks now task db = claim_hosts-tasks now task (hosts_in pending task) db

-- The database has the task's row.
abbrev pub has_task : ℕ → Db → Bool
has_task id db = any (λ u. u.id == id) db.tasks

has_task-Memᴰ : (t : TaskRow) (ts : List TaskRow) → Memᴰ t ts → any (λ u. u.id == t.id) ts ≡ true
has_task-Memᴰ t [] m = elim m [ ]
has_task-Memᴰ t (u ∷ ts) (Memᴰ.head e) =
    subst (λ (x : TaskRow). any (λ y. y.id == t.id) (x ∷ ts) ≡ true) e (ground arith)
has_task-Memᴰ t (u ∷ ts) (Memᴰ.tail m) = ground (arith, has_task-Memᴰ t ts m)

-- The task that comes next is read from the table, and has a pending row.
next-pending :
    (db : Db) (task : Task)
    → get_next_multicast db ≡ some task
    → (t : TaskRow) × (task ≡ to_task db t)
      × (has_task t.id db ≡ true)
      × (any (λ r. of_task t.id r && is_state r.state pending) db.task_hosts ≡ true)
unfolding get_next_multicast fetch_optional queued_multicasts
next-pending db task e = elim (Option-cases (least older (queued_multicasts db))) [
  | inl n ↦ let q = sym (ap (fetch_optional db) n) ∙ e in cc
  | inr (t, s) ↦
      let m = least-mem older (queued_multicasts db) t s in
      let (listed, q) =
        mem-keep (λ u. multicasts u.task_type && has_row db (λ x. is_state x pending) u) db.tasks
          m in
      (
        t,
        some-injective _ _ (sym e ∙ ap (fetch_optional db) s),
        has_task-Memᴰ t db.tasks listed,
        ground (arith, q),
      )
]

module _ {S : Type 0} (registry : HostRegistry S) (session : Task → Db → Db × Result (Unit {0}))
    (now : ℕ → ℕ) where
  module _ (sound : (task : Task) (db : Db) → IsSound db → IsSound (session task db).0)
      (calm : (task : Task) (db : Db)
        → count_pending (session task db).0.task_hosts ≤ count_pending db.task_hosts)
      (stays : (task : Task) (db : Db)
        → has_task task.id db ≡ true
        → has_task task.id (session task db).0 ≡ true) where
    -- A session of a task that is there returns, and leaves fewer rows pending.
    run_session-some :
        (t : TaskRow) (db : Db)
        → IsSound db
        → has_task t.id db ≡ true
        → any (λ r. of_task t.id r && is_state r.state pending) db.task_hosts ≡ true
        → (d : Db) × (run_session registry session now (to_task db t) db ≡ some d)
          × IsSound d
          × (count_pending d.task_hosts < count_pending db.task_hosts)
    unfolding run_session to_task
    run_session-some t db v there p =
        let task = to_task db t in
        let claimed = claim now task db in
        let left = session task claimed in
        let failure = failure_of registry left.1 in
        let kept : has_task t.id left.0 ≡ true =
          stays task claimed (
            subst (λ ts. any (λ u. u.id == t.id) ts ≡ true) (sym (claim-tasks now task db))
              there) in
        let (hosts, returned) = settle-ok registry now t.id failure left.0 kept in
        let settled = settle_hosts now t.id failure (connected_hosts registry) hosts left.0 in
        let less =
          count_pending-lt t.id db.task_hosts claimed.task_hosts (claim-Touches now task db) p
            (claim-pending now t db v) in
        let same = calm task claimed in
        let more =
          count_pending-le t.id left.0.task_hosts settled.task_hosts
            (settle_hosts-Touches now t.id failure (connected_hosts registry) hosts left.0) in
        (
          settled,
          rw returned refl,
          settle_hosts-IsSound now t.id failure (connected_hosts registry) hosts left.0
              (sound task claimed (claim-IsSound now task db v)),
          omega arith,
        )

    -- Where every row of `task_hosts` refers to a host, if the session keeps that, keeps the row of
    -- its task and leaves no more rows pending than it found, then with more fuel than there are
    -- pending rows every session returns, and the loop ends with no multicast task left to run.
    pub drain-none :
        (fuel : ℕ) (db : Db)
        → IsSound db
        → count_pending db.task_hosts < fuel
        → (d : Db) × (drain registry session now fuel db ≡ some d) × (get_next_multicast d ≡ none)
    unfolding drain
    drain-none zero db v f = absurd (omega arith)
    drain-none (suc fuel) db v f = elim (Option-cases (get_next_multicast db)) [
      | inl e ↦ (db, rw (e, drain) refl, e)
      | inr (task, e) ↦
          let (t, same, there, p) = next-pending db task e in
          let (left, ran, w, less) = run_session-some t db v there p in
          let (d, ended, empty) = drain-none fuel left w (omega arith) in
          let ran' : run_session registry session now task db ≡ some left =
            subst (λ x. run_session registry session now x db ≡ some left) (sym same) ran in
          (d, rw (e, drain) (rw (ran', drain) ended), empty)
    ]
