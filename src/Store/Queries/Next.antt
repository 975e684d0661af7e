-- ===== src/Store/Queries/Next.antt =====
-- What `get_next` and `get_next_multicast` choose (crates/core/src/repository/task.rs).
use mathlib.Core.Path.{subst}
use mathlib.Core.List.{Memᴰ}
use imaged.Base.{
  ℕ, true, false, ◌&&◌, ◌≡◌, ◌≤◌, ◌<◌, ◌⊎◌, inl, inr, refl, sym, ap, ◌∙◌, Option, none, some, arith,
  ◌==◌, List, [], ◌∷◌, Bool-cases, Option-cases, ==→eq,
}
use imaged.Base.Members.{
  All-mem, mem-keep, keep-mem, Memᴰ-append_left, Memᴰ-append_right, Memᴰ-append, Memᴰ-map, map-Memᴰ,
}
use imaged.Base.Least.{least, least-nil, least-mem, least-unbeaten, IsOrder}
use imaged.Task.{TaskState, pending, running, done, failed, cancelled, partial, is_active, Task}
use imaged.Store.{TaskRow, TaskHostRow, Db}
use imaged.Store.Views.{to_task}
use imaged.Store.Queries.{
  Candidate, urgency, precedes, of_row, candidates_in, candidates, row_of, fetch_optional, get_next,
  older,
}

precedes-IsOrder : IsOrder precedes
precedes-IsOrder = record {
  irrefl = λ a. ground arith;
  asym = λ a b h. ground arith;
  neg_trans = λ a b c h k. ground arith;
}

older-IsOrder : IsOrder older
older-IsOrder = record {
  irrefl = λ a. ground arith;
  asym = λ a b h. ground arith;
  neg_trans = λ a b c h k. ground arith;
}

-- The row `r` puts the task `t` at the host's disposal: it is the host's, unsettled, and `t`'s.
pub record Offers (host_id : ℕ) (tasks : List TaskRow) (rows : List TaskHostRow) (r : TaskHostRow)
    (t : TaskRow) : Type 0 where
  pub row : Memᴰ r rows
  pub host : r.host_id ≡ host_id
  pub active : is_active r.state ≡ true
  pub task : Memᴰ t tasks
  pub same_id : t.id ≡ r.task_id

abbrev candidate : TaskHostRow → TaskRow → Candidate
candidate r t = record { state = r.state; task = t }

eq→== : (a b : ℕ) → a ≡ b → (a == b) ≡ true
eq→== a b e = ground arith

mem-of_row :
    (r : TaskHostRow) (t : TaskRow) (tasks : List TaskRow)
    → Memᴰ t tasks
    → t.id ≡ r.task_id
    → Memᴰ (candidate r t) (of_row r tasks)
unfolding of_row
mem-of_row r t tasks m e =
    Memᴰ-map (candidate r) _ (keep-mem (λ t. t.id == r.task_id) tasks m (eq→== t.id r.task_id e))

-- What a row offers is a candidate.
mem-candidates_in :
    (host_id : ℕ) (r : TaskHostRow) (t : TaskRow) (tasks : List TaskRow) (rows : List TaskHostRow)
    → Memᴰ r rows
    → r.host_id ≡ host_id
    → is_active r.state ≡ true
    → Memᴰ (candidate r t) (of_row r tasks)
    → Memᴰ (candidate r t) (candidates_in host_id tasks rows)
unfolding candidates_in
mem-candidates_in host_id r t tasks [] m h a n = elim m [ ]
mem-candidates_in host_id r t tasks (s ∷ rows) (Memᴰ.head q) h a n =
    let hit : (s.host_id == host_id && is_active s.state) ≡ true =
      subst (λ (x : TaskHostRow). (x.host_id == host_id && is_active x.state) ≡ true) q
        (rw (eq→== r.host_id host_id h) a) in
    rw hit
      (Memᴰ-append_left (of_row s tasks) _ (subst (λ x. Memᴰ (candidate r t) (of_row x tasks)) q n))
mem-candidates_in host_id r t tasks (s ∷ rows) (Memᴰ.tail m) h a n =
    let rest = mem-candidates_in host_id r t tasks rows m h a n in
    elim (Bool-cases (s.host_id == host_id && is_active s.state)) [
      | inl hit ↦ rw hit (Memᴰ-append_right (of_row s tasks) _ rest)
      | inr miss ↦ rw miss rest
    ]

later-Offers :
    {host_id : ℕ} {tasks : List TaskRow} {rows : List TaskHostRow} {r : TaskHostRow} {t : TaskRow}
    (s : TaskHostRow)
    → Offers host_id tasks rows r t
    → Offers host_id tasks (s ∷ rows) r t
later-Offers s o = record {
  row = Memᴰ.tail o.row;
  host = o.host;
  active = o.active;
  task = o.task;
  same_id = o.same_id;
}

of_row-mem :
    (r : TaskHostRow) (c : Candidate) (tasks : List TaskRow)
    → Memᴰ c (of_row r tasks)
    → Memᴰ c.task tasks × (c.task.id ≡ r.task_id) × (c.state ≡ r.state)
unfolding of_row
of_row-mem r c tasks m =
    let (t, n, e) = map-Memᴰ (candidate r) _ m in
    let (n', h) = mem-keep (λ t. t.id == r.task_id) tasks n in
    (
      subst (λ (x : Candidate). Memᴰ x.task tasks) (sym e) n',
      ap (λ (x : Candidate). x.task.id) e ∙ ==→eq t.id r.task_id h,
      ap (λ (x : Candidate). x.state) e,
    )

offered_here :
    (host_id : ℕ) (r : TaskHostRow) (c : Candidate) (tasks : List TaskRow) (rows : List TaskHostRow)
    → (r.host_id == host_id && is_active r.state) ≡ true
    → Memᴰ c (of_row r tasks)
    → Offers host_id tasks (r ∷ rows) r c.task × (c.state ≡ r.state)
offered_here host_id r c tasks rows h m =
    let (n, e, s) = of_row-mem r c tasks m in
    (
      record {
        row = Memᴰ.head refl;
        host = ground arith;
        active = ground arith;
        task = n;
        same_id = e;
      },
      s,
    )

-- Every candidate is offered by a row.
candidates_in-mem :
    (host_id : ℕ) (c : Candidate) (tasks : List TaskRow) (rows : List TaskHostRow)
    → Memᴰ c (candidates_in host_id tasks rows)
    → (r : TaskHostRow) × Offers host_id tasks rows r c.task × (c.state ≡ r.state)
unfolding candidates_in
candidates_in-mem host_id c tasks [] m = elim m [ ]
candidates_in-mem host_id c tasks (s ∷ rows) m =
    let later : Memᴰ c (candidates_in host_id tasks rows)
        → (r : TaskHostRow) × Offers host_id tasks (s ∷ rows) r c.task × (c.state ≡ r.state) =
      λ n. let (r, o, e) = candidates_in-mem host_id c tasks rows n in (r, later-Offers s o, e) in
    elim (Bool-cases (s.host_id == host_id && is_active s.state)) [
      | inl hit ↦ elim (Memᴰ-append (of_row s tasks) _ (rw hit at m)) [
        | inl here ↦ let (o, e) = offered_here host_id s c tasks rows hit here in (s, o, e)
        | inr there ↦ later there
      ]
      | inr miss ↦ later (rw miss at m)
    ]

-- The row `r` with the task `t` is dispatched no later than `q` with `u`: a running host before a
-- pending one, and of two in the same state the older task.
abbrev pub NoLater : TaskHostRow → TaskRow → TaskHostRow → TaskRow → Type 0
NoLater r t q u =
    ((r.state ≡ running) × (q.state ≡ pending))
    ⊎ ((r.state ≡ q.state) × (t.created_at ≤ u.created_at))

-- What the ranks of the statement mean for hosts that are not settled.
NoLater-urgency :
    (s z : TaskState) (a b : ℕ)
    → is_active s ≡ true
    → is_active z ≡ true
    → (urgency s < urgency z) ⊎ ((urgency s ≡ urgency z) × (a ≤ b))
    → ((s ≡ running) × (z ≡ pending)) ⊎ ((s ≡ z) × (a ≤ b))
NoLater-urgency running running a b g h (inl e) = absurd (omega (arith, e))
NoLater-urgency running running a b g h (inr e) = inr (refl, e.1)
NoLater-urgency running pending a b g h e = inl (refl, refl)
NoLater-urgency pending running a b g h (inl e) = absurd (omega (arith, e))
NoLater-urgency pending running a b g h (inr e) = absurd (omega (arith, e.0))
NoLater-urgency pending pending a b g h (inl e) = absurd (omega (arith, e))
NoLater-urgency pending pending a b g h (inr e) = inr (refl, e.1)
NoLater-urgency done z a b g h e = cc
NoLater-urgency failed z a b g h e = cc
NoLater-urgency cancelled z a b g h e = cc
NoLater-urgency partial z a b g h e = cc
NoLater-urgency running done a b g h e = cc
NoLater-urgency running failed a b g h e = cc
NoLater-urgency running cancelled a b g h e = cc
NoLater-urgency running partial a b g h e = cc
NoLater-urgency pending done a b g h e = cc
NoLater-urgency pending failed a b g h e = cc
NoLater-urgency pending cancelled a b g h e = cc
NoLater-urgency pending partial a b g h e = cc

offers-mem :
    (host_id : ℕ) (db : Db) (q : TaskHostRow) (u : TaskRow)
    → Offers host_id db.tasks db.task_hosts q u
    → Memᴰ (candidate q u) (candidates host_id db)
unfolding candidates
offers-mem host_id db q u o =
    mem-candidates_in host_id q u db.tasks db.task_hosts o.row o.host o.active
      (mem-of_row q u db.tasks o.task o.same_id)

not_before :
    (c d : Candidate)
    → precedes d c ≡ false
    → (urgency c.state < urgency d.state)
      ⊎ ((urgency c.state ≡ urgency d.state) × (c.task.created_at ≤ d.task.created_at))
not_before c d h = ground arith

chosen :
    (host_id : ℕ) (db : Db) (q : TaskHostRow) (u : TaskRow) (c : Candidate)
    → Offers host_id db.tasks db.task_hosts q u
    → least precedes (candidates host_id db) ≡ some c
    → (r : TaskHostRow) × Offers host_id db.tasks db.task_hosts r c.task
      × (get_next host_id db ≡ some (to_task db c.task))
      × NoLater r c.task q u
unfolding get_next
chosen host_id db q u c o e =
    let (r, offered, s) =
      candidates_in-mem host_id c db.tasks db.task_hosts
        (least-mem precedes (candidates host_id db) c e) in
    let first =
      All-mem (λ d. precedes d c ≡ false) (candidates host_id db)
        (least-unbeaten precedes precedes-IsOrder (candidates host_id db) c e)
        (offers-mem host_id db q u o) in
    (
      r,
      offered,
      rw (e, get_next, row_of),
      NoLater-urgency r.state q.state c.task.created_at u.created_at offered.active o.active (
          subst
            (λ (x : TaskState).
              (urgency x < urgency q.state)
              ⊎ ((urgency x ≡ urgency q.state) × (c.task.created_at ≤ u.created_at)))
            s (not_before c (candidate q u) first)),
    )

-- As soon as some row offers the host a task, `get_next` finds one that a row offers it. Against
-- every offer, either the row found is running and the offered one pending, or the two are in the
-- same state and the task found is not the younger.
pub get_next-NoLater :
    (host_id : ℕ) (db : Db) (q : TaskHostRow) (u : TaskRow)
    → Offers host_id db.tasks db.task_hosts q u
    → (r : TaskHostRow) × (t : TaskRow) × Offers host_id db.tasks db.task_hosts r t
      × (get_next host_id db ≡ some (to_task db t))
      × NoLater r t q u
get_next-NoLater host_id db q u o = elim (Option-cases (least precedes (candidates host_id db))) [
  | inl e ↦ absurd (
      elim (subst (Memᴰ (candidate q u)) (least-nil precedes _ e)
        (offers-mem host_id db q u o)) [ ])
  | inr (c, e) ↦
      let (r, offered, found, first) = chosen host_id db q u c o e in
      (r, c.task, offered, found, first)
]

-- What `get_next` finds is a task that a row offers the host.
pub get_next-Offers :
    (host_id : ℕ) (db : Db) (task : Task)
    → get_next host_id db ≡ some task
    → (r : TaskHostRow) × (t : TaskRow) × Offers host_id db.tasks db.task_hosts r t
      × (task ≡ to_task db t)
unfolding get_next row_of fetch_optional
get_next-Offers host_id db task found =
    elim (Option-cases (least precedes (candidates host_id db))) [
      | inl e ↦ absurd (none_found (rw e at found))
      | inr (c, e) ↦
          let (r, offered, _) =
            candidates_in-mem host_id c db.tasks db.task_hosts
              (least-mem precedes (candidates host_id db) c e) in
          (r, c.task, offered, same_task c (rw e at found))
    ]
  where
    none_found : ◌≡◌ {A = Option Task} none (some task) → ⊥
    none_found q = cc

    same_task :
        (c : Candidate)
        → ◌≡◌ {A = Option Task} (some (to_task db c.task)) (some task)
        → task ≡ to_task db c.task
    same_task c q = cc
