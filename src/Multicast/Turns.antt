-- ===== src/Multicast/Turns.antt =====
-- What the turns of `claim` do to the rows, one host after the other (crates/core/src/multicast.rs).
use imaged.Base.{
  ℕ, Bool, true, false, ◌&&◌, ◌≡◌, refl, sym, ap, ◌∙◌, arith, Option, none, some, List, [], ◌∷◌,
  ◌++◌, ◌==◌, ==→eq, if◌then◌else◌, elem, map, update_where, Bool-cases, Option-cases, inl, inr,
}
use imaged.Base.Least.{least}
use imaged.Text.{text, decimal}
use imaged.Task.{running, failed, Task, is_active}
use imaged.Store.{TaskRow, TaskHostRow, Db, of_task, is_row, start, mark_failed}
use imaged.Store.Views.{to_task}
use imaged.Store.Queries.{
  Candidate, get_next, fetch_optional, row_of, precedes, candidates, candidates_in,
}
use imaged.Multicast.{claim_host, claim_with, claim_hosts, busy_with}

abbrev pub id_of : Option Task → Option ℕ
id_of none = none
id_of (some task) = some task.id

abbrev pub started : ℕ → TaskHostRow → TaskHostRow
started now r = record r { state = running; started_at = some now }

abbrev pub busy : ℕ → ℕ → TaskHostRow → TaskHostRow
busy now other r = record r {
  state = failed;
  finished_at = some now;
  error = some (text "Host was busy with task " ++ decimal other);
}

-- What becomes of the row of a host that is to take part in the task `id`, by the task that is next
-- for the host: with none, or with this one, it has started; with another, it has failed.
abbrev pub verdict : Option ℕ → ℕ → ℕ → TaskHostRow → TaskHostRow
verdict none now id r = started now r
verdict (some next) now id r = if next == id then started now r else busy now next r

abbrev turn : Option ℕ → ℕ → ℕ → ℕ → TaskHostRow → TaskHostRow
turn next now id h r = if is_row id h r && is_active r.state then verdict next now id r else r

update_where-map :
    (p : TaskHostRow → Bool) (f g : TaskHostRow → TaskHostRow)
    → ((r : TaskHostRow) → (if p r then f r else r) ≡ g r)
    → (rows : List TaskHostRow) → update_where p f rows ≡ map g rows
update_where-map p f g same [] = refl
update_where-map p f g same (r ∷ rows) =
    let e = same r in let rest = update_where-map p f g same rows in λ i. e i ∷ rest i

claim_with-turn :
    (next : Option Task) (now : ℕ) (task : Task) (h : ℕ) (db : Db)
    → (claim_with next now task h db).task_hosts
      ≡ map (turn (id_of next) now task.id h) db.task_hosts
unfolding claim_with start mark_failed busy_with
claim_with-turn none now task h db =
    update_where-map (λ r. is_row task.id h r && is_active r.state) (started now)
      (turn none now task.id h) (λ r. refl) db.task_hosts
claim_with-turn (some next) now task h db = elim (Bool-cases (next.id == task.id)) [
  | inl same ↦ rw same (
      update_where-map (λ r. is_row task.id h r && is_active r.state) (started now)
        (turn (some next.id) now task.id h) (λ r. rw same refl) db.task_hosts)
  | inr other ↦ rw other (
      update_where-map (λ r. is_row task.id h r && is_active r.state) (busy now next.id)
        (turn (some next.id) now task.id h) (λ r. rw other refl) db.task_hosts)
]

pub claim_with-tasks :
    (next : Option Task) (now : ℕ) (task : Task) (h : ℕ) (db : Db)
    → (claim_with next now task h db).tasks ≡ db.tasks
unfolding claim_with start mark_failed
claim_with-tasks none now task h db = refl
claim_with-tasks (some next) now task h db = elim (Bool-cases (next.id == task.id)) [
  | inl same ↦ rw same refl
  | inr other ↦ rw other refl
]

-- The turn of one host leaves the rows of another as they are.
turn-elsewhere :
    (next : Option ℕ) (now id h : ℕ) (r : TaskHostRow)
    → (r.host_id == h) ≡ false
    → turn next now id h r ≡ r
turn-elsewhere next now id h r e = ground (arith, e)

turn-host :
    (next : Option ℕ) (now id h : ℕ) (r : TaskHostRow) → (turn next now id h r).host_id ≡ r.host_id
turn-host none now id h r = ground arith
turn-host (some n) now id h r = elim (Bool-cases (n == id)) [
  | inl same ↦ rw same (ground arith)
  | inr other ↦ rw other (ground arith)
]

candidates_in-turn :
    (k : ℕ) (tasks : List TaskRow) (next : Option ℕ) (now id h : ℕ) (rows : List TaskHostRow)
    → (k == h) ≡ false
    → candidates_in k tasks (map (turn next now id h) rows) ≡ candidates_in k tasks rows
unfolding candidates_in
candidates_in-turn k tasks next now id h [] e = refl
candidates_in-turn k tasks next now id h (r ∷ rows) e = elim (Bool-cases (r.host_id == h)) [
  | inr other ↦
      rw (turn-elsewhere next now id h r other, candidates_in-turn k tasks next now id h rows e)
        refl
  | inl mine ↦
      let skip : (r.host_id == k) ≡ false = ground (arith, e, mine) in
      let skip' : ((turn next now id h r).host_id == k) ≡ false =
        ap (λ x. x == k) (turn-host next now id h r) ∙ skip in
      rw (skip', skip) (candidates_in-turn k tasks next now id h rows e)
]

id_of_row : Option Candidate → Option ℕ
id_of_row none = none
id_of_row (some c) = some c.task.id

id_of-get_next :
    (k : ℕ) (db : Db)
    → id_of (get_next k db) ≡ id_of_row (least precedes (candidates_in k db.tasks db.task_hosts))
unfolding get_next fetch_optional row_of candidates to_task id_of_row
id_of-get_next k db =
    elim (Option-cases (least precedes (candidates_in k db.tasks db.task_hosts))) [
      | inl e ↦ rw e refl
      | inr (c, e) ↦ rw e refl
    ]

-- So what is next for another host stays next for it.
get_next-turn :
    (next : Option Task) (now : ℕ) (task : Task) (h k : ℕ) (db : Db)
    → (k == h) ≡ false
    → id_of (get_next k (claim_with next now task h db)) ≡ id_of (get_next k db)
get_next-turn next now task h k db e =
    id_of-get_next k (claim_with next now task h db)
    ∙ rw (claim_with-tasks next now task h db, claim_with-turn next now task h db)
        (ap (λ cs. id_of_row (least precedes cs))
          (candidates_in-turn k db.tasks (id_of next) now task.id h db.task_hosts e))
    ∙ sym (id_of-get_next k db)

-- Every host of the list has had its turn.
abbrev turns : (ℕ → Option ℕ) → (ℕ → ℕ) → ℕ → List ℕ → TaskHostRow → TaskHostRow
turns next now id hs r =
    if of_task id r && (elem r.host_id hs && is_active r.state)
    then verdict (next r.host_id) (now r.host_id) id r
    else r

-- No host is on the list twice.
abbrev pub Once : List ℕ → Type 0
Once [] = Unit
Once (h ∷ hs) = (elem h hs ≡ false) × Once hs

turns-missed :
    (next : ℕ → Option ℕ) (now : ℕ → ℕ) (id : ℕ) (hs : List ℕ) (r : TaskHostRow)
    → elem r.host_id hs ≡ false
    → turns next now id hs r ≡ r
turns-missed next now id hs r e = ground (arith, e)

turns-turn :
    (next : ℕ → Option ℕ) (now : ℕ → ℕ) (id h : ℕ) (hs : List ℕ) (r : TaskHostRow)
    → elem h hs ≡ false
    → turns next now id hs (turn (next h) (now h) id h r) ≡ turns next now id (h ∷ hs) r
turns-turn next now id h hs r once = elim (Bool-cases (r.host_id == h)) [
  | inr other ↦
      let other' : (h == r.host_id) ≡ false = ground (arith, other) in
      rw (turn-elsewhere (next h) (now h) id h r other, other') refl
  | inl mine ↦
      let e : r.host_id ≡ h = ==→eq r.host_id h mine in
      let mine' : (h == r.host_id) ≡ true = ground (arith, mine) in
      turns-missed next now id hs (turn (next h) (now h) id h r)
        (ap (λ x. elem x hs) (turn-host (next h) (now h) id h r ∙ e) ∙ once)
      ∙ ap (λ x. if is_row id h r && is_active r.state then verdict (next x) (now x) id r else r)
          (sym e)
      ∙ rw (mine, mine') (ground arith)
]

map_turns :
    (next : ℕ → Option ℕ) (now : ℕ → ℕ) (id h : ℕ) (hs : List ℕ) (rows : List TaskHostRow)
    → elem h hs ≡ false
    → map (turns next now id hs) (map (turn (next h) (now h) id h) rows)
      ≡ map (turns next now id (h ∷ hs)) rows
map_turns next now id h hs [] once = refl
map_turns next now id h hs (r ∷ rows) once =
    let e = turns-turn next now id h hs r once in
    let rest = map_turns next now id h hs rows once in λ i. e i ∷ rest i

turns-none :
    (next : ℕ → Option ℕ) (now : ℕ → ℕ) (id : ℕ) (rows : List TaskHostRow)
    → rows ≡ map (turns next now id []) rows
turns-none next now id [] = refl
turns-none next now id (r ∷ rows) =
    let e = sym (turns-missed next now id [] r refl) in
    let rest = turns-none next now id rows in λ i. e i ∷ rest i

pub claim_hosts-turns :
    (next : ℕ → Option ℕ) (now : ℕ → ℕ) (task : Task) (hs : List ℕ) (db : Db)
    → Once hs
    → ((k : ℕ) → elem k hs ≡ true → id_of (get_next k db) ≡ next k)
    → (claim_hosts now task hs db).task_hosts ≡ map (turns next now task.id hs) db.task_hosts
unfolding claim_hosts claim_host
claim_hosts-turns next now task [] db once known = turns-none next now task.id db.task_hosts
claim_hosts-turns next now task (h ∷ hs) db once known =
    let found = get_next h db in
    let first : id_of found ≡ next h = known h (ground arith) in
    claim_hosts-turns next now task hs (claim_with found (now h) task h db) once.1 (λ k e.
      elim (Bool-cases (k == h)) [
        | inl same ↦ absurd (twice k e (==→eq k h same))
        | inr other ↦ get_next-turn found (now h) task h k db other ∙ known k (ground (arith, e))
      ])
    ∙ ap (map (turns next now task.id hs)) (
        claim_with-turn found (now h) task h db
        ∙ ap (λ n. map (turn n (now h) task.id h) db.task_hosts) first)
    ∙ map_turns next now task.id h hs db.task_hosts once.0
  where
    twice : (k : ℕ) → elem k hs ≡ true → k ≡ h → ⊥
    twice k e same = let q = sym (ap (λ x. elem x hs) same ∙ once.0) ∙ e in cc
