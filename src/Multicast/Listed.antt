-- ===== src/Multicast/Listed.antt =====
-- The hosts of a task in some state, as the worker reads them, are those of its rows.
use imaged.Base.{
  ℕ, true, false, ◌≡◌, refl, arith, List, [], ◌∷◌, ◌==◌, if◌then◌else◌, elem, any, map, keep, find,
  All, Bool-cases, Option-cases, inl, inr,
}
use imaged.Task.{TaskState, is_state, hosts_in}
use imaged.Store.{TaskRow, TaskHostRow, HostRow, Db, of_task}
use imaged.Store.Views.{joined, join_host, to_task, RefersTo}
use imaged.Multicast.Rows.{left_out}

abbrev pub listed : TaskState → List HostRow → List TaskHostRow → List ℕ
listed s hosts rows = map (λ h. h.host_id) (keep (λ h. is_state h.state s) (joined hosts rows))

-- A row of the task, in front of the others.
pub listed-row :
    (s : TaskState) (hosts : List HostRow) (r : TaskHostRow) (rows : List TaskHostRow)
    → RefersTo hosts r
    → listed s hosts (r ∷ rows)
      ≡ (if is_state r.state s then r.host_id ∷ listed s hosts rows else listed s hosts rows)
unfolding joined
listed-row s hosts r rows v = elim (Option-cases (find (λ h. h.id == r.host_id) hosts)) [
  | inl e ↦ absurd (ground arith)
  | inr (h, e) ↦ rw (e, join_host) (ground arith)
]

row-left_out :
    (s : TaskState) (id : ℕ) (L : List ℕ) (r : TaskHostRow)
    → (of_task id r ≡ true → is_state r.state s ≡ true → elem r.host_id L ≡ true)
    → left_out s id L r ≡ false
row-left_out s id L r h = elim (Bool-cases (of_task id r)) [
  | inr e ↦ rw e
  | inl e ↦ elim (Bool-cases (is_state r.state s)) [ inr f ↦ rw (e, f) | inl f ↦ rw (e, f, h e f) ]
]

any-left_out :
    (s : TaskState) (id : ℕ) (L : List ℕ) (hosts : List HostRow) (rows : List TaskHostRow)
    → All (RefersTo hosts) rows
    → ((h : ℕ) → elem h (listed s hosts (keep (of_task id) rows)) ≡ true → elem h L ≡ true)
    → any (left_out s id L) rows ≡ false
any-left_out s id L hosts [] v sub = refl
any-left_out s id L hosts (r ∷ rows) v sub =
    let rest = listed s hosts (keep (of_task id) rows) in
    let here : left_out s id L r ≡ false = row-left_out s id L r (λ e f.
      sub r.host_id
        (rw e (rw (listed-row s hosts r (keep (of_task id) rows) v.0, f) (ground arith)))) in
    let later : (h : ℕ) → elem h rest ≡ true → elem h L ≡ true = λ h m.
      sub h (elim (Bool-cases (of_task id r)) [
        | inr e ↦ rw e m
        | inl e ↦ rw e (
            rw (listed-row s hosts r (keep (of_task id) rows) v.0)
              (elim (Bool-cases (is_state r.state s)) [
                | inl f ↦ rw f (ground (arith, m))
                | inr f ↦ rw f m
              ]))
      ]) in
    ground (arith, here, any-left_out s id L hosts rows v.1 later)

-- No row of the task in the state `s` is left out of the list.
pub hosts_in-left_out :
    (s : TaskState) (db : Db) (t : TaskRow)
    → All (RefersTo db.hosts) db.task_hosts
    → any (left_out s t.id (hosts_in s (to_task db t))) db.task_hosts ≡ false
unfolding hosts_in to_task
hosts_in-left_out s db t v =
    any-left_out s t.id (listed s db.hosts (keep (of_task t.id) db.task_hosts)) db.hosts
      db.task_hosts v (λ h m. m)
