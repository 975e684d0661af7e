-- ===== src/Agent/Reports/Rows.antt =====
-- What a settled row makes of the next task and of the task's hosts (crates/api/agent/src/task.rs).
use mathlib.Core.List.{Memᴰ}
use mathlib.Core.Path.{subst}
use imaged.Base.{
  ℕ, Bool, true, false, ◌&&◌, ◌||◌, Option, none, some, List, All, [], ◌∷◌, ◌==◌, any, find, keep,
  map, update_where, is_some, ◌≡◌, refl, sym, ap, ◌∙◌, inl, inr, arith, Bool-cases, Option-cases,
}
use imaged.Base.Members.{All-mem}
use imaged.Task.{Task, TaskState, TaskHost, is_state, is_active}
use imaged.Store.{TaskHostRow, HostRow, Db, is_row, of_task}
use imaged.Store.Views.{to_task, joined, join_host}
use imaged.Store.Queries.{get_next}
use imaged.Store.Queries.Next.{get_next-Offers}
use imaged.Agent.{with_id}

abbrev pub unsettled : ℕ → ℕ → TaskHostRow → Bool
unsettled task_id host_id r = is_row task_id host_id r && is_active r.state

abbrev pub settled_as : TaskState → ℕ → ℕ → TaskHostRow → Bool
settled_as outcome task_id host_id r = is_row task_id host_id r && is_state r.state outcome

-- Where no row of the task on this host is unsettled, the host is not offered the task.
pub with_id-settled :
    (task_id host_id : ℕ) (db : Db)
    → All (λ r. unsettled task_id host_id r ≡ false) db.task_hosts
    → with_id task_id (get_next host_id db) ≡ none
unfolding to_task
with_id-settled task_id host_id db v = elim (Option-cases (get_next host_id db)) [
  | inl e ↦ ap (with_id task_id) e
  | inr (t, e) ↦
      let (r, row, o, same) = get_next-Offers host_id db t e in
      let id : t.id ≡ row.id = ap (λ (x : Task). x.id) same in
      let settled = All-mem (λ r. unsettled task_id host_id r ≡ false) db.task_hosts v o.row in
      let task = o.same_id in
      let host = o.host in let open_ = o.active in ap (with_id task_id) e ∙ ground arith
]

-- What settling makes of a row.
pub record Settles (outcome : TaskState) (f : TaskHostRow → TaskHostRow) : Type 0 where
  pub task : (r : TaskHostRow) → (f r).task_id ≡ r.task_id
  pub host : (r : TaskHostRow) → (f r).host_id ≡ r.host_id
  pub state : (r : TaskHostRow) → is_state (f r).state outcome ≡ true
  pub closed : (r : TaskHostRow) → is_active (f r).state ≡ false

pub update_where-settled :
    (outcome : TaskState) (f : TaskHostRow → TaskHostRow) (task_id host_id : ℕ)
    (rows : List TaskHostRow)
    → Settles outcome f
    → All
        (λ r. unsettled task_id host_id r ≡ false)
        (update_where (unsettled task_id host_id) f rows)
update_where-settled outcome f task_id host_id [] s = tt
update_where-settled outcome f task_id host_id (r ∷ rows) s =
    let closed = s.closed r in (ground arith, update_where-settled outcome f task_id host_id rows s)

pub any-settled_as :
    (outcome : TaskState) (f : TaskHostRow → TaskHostRow) (task_id host_id : ℕ)
    (rows : List TaskHostRow)
    → Settles outcome f
    → (r : TaskHostRow) → Memᴰ r rows
    → unsettled task_id host_id r ≡ true
    → any (settled_as outcome task_id host_id) (update_where (unsettled task_id host_id) f rows)
      ≡ true
any-settled_as outcome f task_id host_id [] s r m h = elim m [ ]
any-settled_as outcome f task_id host_id (q ∷ rows) s r (Memᴰ.head e) h =
    let here : unsettled task_id host_id q ≡ true =
      subst (λ x. unsettled task_id host_id x ≡ true) e h in
    let task = s.task q in let host = s.host q in let state = s.state q in ground arith
any-settled_as outcome f task_id host_id (q ∷ rows) s r (Memᴰ.tail m) h =
    let rest = any-settled_as outcome f task_id host_id rows s r m h in ground arith

pub find-is_some :
    {A : Type 0} (p q : A → Bool) (l : List A) (a : A)
    → find p l ≡ some a
    → q a ≡ true
    → is_some (find q l) ≡ true
find-is_some p q [] a e h = cc
find-is_some p q (b ∷ l) a e h = elim (Bool-cases (p b)) [
  | inl t ↦
      let same : b ≡ a = ground arith in
      let here : q b ≡ true = subst (λ x. q x ≡ true) (sym same) h in ground arith
  | inr f ↦ let rest = find-is_some p q l a (ground arith) h in ground arith
]

abbrev pub shows : TaskState → ℕ → List TaskHost → Bool
shows outcome host_id hosts =
    any (λ id. id == host_id) (map (λ h. h.host_id) (keep (λ h. is_state h.state outcome) hosts))

shows-join_host :
    (outcome : TaskState) (host_id : ℕ) (r : TaskHostRow) (o : Option HostRow)
    (rest : List TaskHost)
    → shows outcome host_id (join_host r o rest) ≡ (
        (is_some o && (is_state r.state outcome && r.host_id == host_id))
        || shows outcome host_id rest)
unfolding join_host
shows-join_host outcome host_id r none rest = refl
shows-join_host outcome host_id r (some h) rest = ground arith

-- A host that is joined shows among the hosts in its state.
pub shows-joined :
    (outcome : TaskState) (task_id host_id : ℕ) (hosts : List HostRow) (rows : List TaskHostRow)
    → is_some (find (λ h. h.id == host_id) hosts) ≡ true
    → any (settled_as outcome task_id host_id) rows ≡ true
    → shows outcome host_id (joined hosts (keep (of_task task_id) rows)) ≡ true
unfolding joined
shows-joined outcome task_id host_id hosts [] k h = cc
shows-joined outcome task_id host_id hosts (r ∷ rows) k h =
    elim (Bool-cases (settled_as outcome task_id host_id r)) [
      | inl e ↦
          let mine : (r.task_id == task_id) ≡ true = ground arith in
          let host : r.host_id ≡ host_id = ground arith in
          let known : is_some (find (λ h. h.id == r.host_id) hosts) ≡ true =
            subst (λ n. is_some (find (λ h. h.id == n) hosts) ≡ true) (sym host) k in
          rw mine (
            shows-join_host outcome host_id r (find (λ h. h.id == r.host_id) hosts) _
            ∙ ground arith)
      | inr e ↦
          let rest = shows-joined outcome task_id host_id hosts rows k (ground arith) in
          elim (Bool-cases (r.task_id == task_id)) [
            | inl mine ↦ rw mine (
                shows-join_host outcome host_id r (find (λ h. h.id == r.host_id) hosts) _
                ∙ ground arith)
            | inr other ↦ rw other rest
          ]
    ]
