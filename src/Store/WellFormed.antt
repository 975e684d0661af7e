-- ===== src/Store/WellFormed.antt =====
-- What holds of every row of `task_hosts` (crates/core/src/repository/task.rs) and of the script
-- runs of a host that settles (the trigger of crates/core/migrations).
use imaged.Base.{
  ℕ, Bool, true, false, not, ◌&&◌, ◌≡◌, ◌≢◌, refl, arith, ◌==◌, List, [], ◌∷◌, if◌then◌else◌, map,
  any, keep, is_some, All, All-update_where, any-map-keep, any_mono, any-update_where,
  any-update_where_none, Bool-cases, inl, inr, ◌∙◌,
}
use imaged.Task.{running, failed, partial, is_state, is_active}
use imaged.Store.{TaskHostRow, ScriptRunRow, Db, is_row, close_script_runs, close_all}
use imaged.Store.Transitions.{
  Mutation, starts, finishes, fails, fails_running, retries, cancels, mutate, mutate_all, selects,
  changes, task_hosts-mutate,
}

-- A row has an end exactly if its host has settled, an error exactly if the host failed, and a
-- start if it runs; `partial` is never stored.
pub record IsWellFormed (r : TaskHostRow) : Type 0 where
  pub stored : r.state ≢ partial
  pub ended : is_some r.finished_at ≡ not (is_active r.state)
  pub explained : is_some r.error ≡ is_state r.state failed
  pub started : r.state ≡ running → is_some r.started_at ≡ true

changes-IsWellFormed :
    (m : Mutation) (db : Db) (r : TaskHostRow)
    → selects m db r ≡ true
    → IsWellFormed r
    → IsWellFormed (changes m r)
changes-IsWellFormed (starts now t h) db r e v = ground arith
changes-IsWellFormed (finishes now t h) db r e v = ground arith
changes-IsWellFormed (fails now t h error) db r e v = ground arith
changes-IsWellFormed (fails_running now ty error) db r e v = ground arith
changes-IsWellFormed (retries id) db r e v = ground arith
changes-IsWellFormed (cancels now id) db r e v = ground arith

mutate-IsWellFormed :
    (m : Mutation) (db : Db)
    → All IsWellFormed db.task_hosts
    → All IsWellFormed (mutate m db).task_hosts
mutate-IsWellFormed m db v = rw (task_hosts-mutate m db) (
    All-update_where IsWellFormed (selects m db) (changes m) (changes-IsWellFormed m db)
      db.task_hosts v)

-- Every sequence of calls keeps every row well formed.
pub mutate_all-IsWellFormed :
    (ms : List Mutation) (db : Db)
    → All IsWellFormed db.task_hosts
    → All IsWellFormed (mutate_all ms db).task_hosts
unfolding mutate_all
mutate_all-IsWellFormed [] db v = v
mutate_all-IsWellFormed (m ∷ ms) db v =
    mutate_all-IsWellFormed ms (mutate m db) (mutate-IsWellFormed m db v)

-- A run of the host in the task that has not ended.
abbrev pub open_run : ℕ → ℕ → List ScriptRunRow → Bool
open_run t h = any (λ s. s.task_id == t && (s.host_id == h && not (is_some s.finished_at)))

abbrev ends_runs : ℕ → ℕ → TaskHostRow → Bool
ends_runs t h n = is_row t h n && (not (is_active n.state) && is_some n.finished_at)

-- One updated row, on one run.
closes : TaskHostRow → ScriptRunRow → Bool
closes new s = s.task_id == new.task_id && (s.host_id == new.host_id && not (is_some s.finished_at))

is_open : ℕ → ℕ → ScriptRunRow → Bool
is_open t h s = s.task_id == t && (s.host_id == h && not (is_some s.finished_at))

closed_run : TaskHostRow → ScriptRunRow → ScriptRunRow
unfolding closes
closed_run n s = if closes n s then record s { finished_at = n.finished_at } else s

is_open-closed_run :
    (t h : ℕ) (n : TaskHostRow) (s : ScriptRunRow)
    → ends_runs t h n ≡ true
    → is_open t h (closed_run n s) ≡ false
unfolding is_open closed_run
is_open-closed_run t h n s e = ground arith

is_open-closed_run_mono :
    (t h : ℕ) (n : TaskHostRow) (s : ScriptRunRow)
    → is_open t h s ≡ false
    → is_open t h (closed_run n s) ≡ false
unfolding is_open closed_run
is_open-closed_run_mono t h n s e = ground arith

open_run-close_script_runs :
    (t h : ℕ) (n : TaskHostRow) (runs : List ScriptRunRow)
    → ends_runs t h n ≡ true
    → open_run t h (close_script_runs n runs) ≡ false
unfolding close_script_runs is_open closed_run
open_run-close_script_runs t h n runs e =
    let settled : is_active n.state ≡ false = ground arith in
    rw settled (
      any-update_where_none (is_open t h) (closes n) (λ s. record s { finished_at = n.finished_at })
        (λ s. is_open-closed_run t h n s e) runs)

close_script_runs_mono :
    (t h : ℕ) (n : TaskHostRow) (runs : List ScriptRunRow)
    → open_run t h runs ≡ false
    → open_run t h (close_script_runs n runs) ≡ false
unfolding close_script_runs is_open closed_run
close_script_runs_mono t h n runs e = elim (Bool-cases (is_active n.state)) [
  | inl active ↦ rw active e
  | inr settled ↦ rw settled (
      any-update_where (is_open t h) (is_open t h) (closes n)
        (λ s. record s { finished_at = n.finished_at }) (is_open-closed_run_mono t h n) runs e)
]

close_all_mono :
    (t h : ℕ) (ns : List TaskHostRow) (runs : List ScriptRunRow)
    → open_run t h runs ≡ false
    → open_run t h (close_all ns runs) ≡ false
unfolding close_all
close_all_mono t h [] runs e = e
close_all_mono t h (n ∷ ns) runs e =
    close_all_mono t h ns (close_script_runs n runs) (close_script_runs_mono t h n runs e)

open_run-close_all :
    (t h : ℕ) (ns : List TaskHostRow) (runs : List ScriptRunRow)
    → any (ends_runs t h) ns ≡ true
    → open_run t h (close_all ns runs) ≡ false
unfolding close_all
open_run-close_all t h [] runs e = cc
open_run-close_all t h (n ∷ ns) runs e = elim (Bool-cases (ends_runs t h n)) [
  | inl hit ↦ close_all_mono t h ns _ (open_run-close_script_runs t h n runs hit)
  | inr miss ↦ open_run-close_all t h ns (close_script_runs n runs) (ground arith)
]

-- The calls that settle the hosts that they select.
abbrev pub settles : Mutation → Bool
settles (starts now t h) = false
settles (retries id) = false
settles _ = true

changes-ends_runs :
    (m : Mutation) (db : Db) (t h : ℕ) (r : TaskHostRow)
    → settles m ≡ true
    → (is_row t h r && selects m db r) ≡ true
    → (selects m db r && ends_runs t h (changes m r)) ≡ true
changes-ends_runs (starts now i j) db t h r s e = cc
changes-ends_runs (finishes now i j) db t h r s e = ground arith
changes-ends_runs (fails now i j error) db t h r s e = ground arith
changes-ends_runs (fails_running now ty error) db t h r s e = ground arith
changes-ends_runs (retries id) db t h r s e = cc
changes-ends_runs (cancels now id) db t h r s e = ground arith

script_runs-mutate :
    (m : Mutation) (db : Db)
    → settles m ≡ true
    → (mutate m db).script_runs
      ≡ close_all (map (changes m) (keep (selects m db) db.task_hosts)) db.script_runs
unfolding mutate
script_runs-mutate (starts now i j) db s = cc
script_runs-mutate (finishes now i j) db s = refl
script_runs-mutate (fails now i j error) db s = refl
script_runs-mutate (fails_running now ty error) db s = refl
script_runs-mutate (retries id) db s = cc
script_runs-mutate (cancels now id) db s = refl

-- When a call settles the host `h` of the task `t`, no script run of theirs stays open.
pub open_run-mutate :
    (m : Mutation) (db : Db) (t h : ℕ)
    → settles m ≡ true
    → any (λ r. is_row t h r && selects m db r) db.task_hosts ≡ true
    → open_run t h (mutate m db).script_runs ≡ false
open_run-mutate m db t h s e = rw (script_runs-mutate m db s) (
    open_run-close_all t h _ db.script_runs (
      any-map-keep (ends_runs t h) (changes m) (selects m db) db.task_hosts
      ∙ any_mono _ _ (λ r. changes-ends_runs m db t h r s) db.task_hosts e))
