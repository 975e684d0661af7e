-- ===== src/Multicast/Claimed.antt =====
-- What a claim makes of every row (`claim` in crates/core/src/multicast.rs).
use imaged.Base.{
  ℕ, Bool, true, false, ◌&&◌, ◌≡◌, refl, sym, ap, ◌∙◌, arith, List, [], ◌∷◌, ==_refl, ==→eq,
  if◌then◌else◌, elem, any, map, keep, All, Bool-cases, inl, inr,
}
use imaged.Task.{TaskState, pending, is_state, is_active, hosts_in}
use imaged.Store.{TaskRow, TaskHostRow, HostRow, Db, of_task, is_row}
use imaged.Store.Views.{joined, to_task, RefersTo}
use imaged.Store.Queries.{get_next}
use imaged.Multicast.{claim}
use imaged.Multicast.Listed.{listed, listed-row}
use imaged.Multicast.Turns.{id_of, verdict, Once, claim_hosts-turns}

-- `PRIMARY KEY (task_id, host_id)`.
abbrev pub IsKeyed : List TaskHostRow → Type 0
IsKeyed [] = Unit
IsKeyed (r ∷ rows) = (any (is_row r.task_id r.host_id) rows ≡ false) × IsKeyed rows

-- Some row is the task's and the host's, and in the state `s`.
abbrev has : TaskState → ℕ → ℕ → List TaskHostRow → Bool
has s id h rows = any (λ r. is_row id h r && is_state r.state s) rows

elem-listed :
    (s : TaskState) (id h : ℕ) (hosts : List HostRow) (rows : List TaskHostRow)
    → All (RefersTo hosts) rows
    → elem h (listed s hosts (keep (of_task id) rows)) ≡ has s id h rows
unfolding joined
elem-listed s id h hosts [] v = refl
elem-listed s id h hosts (r ∷ rows) v =
    let rest = elem-listed s id h hosts rows v.1 in
    elim (Bool-cases (of_task id r)) [
      | inr e ↦ rw e rest
      | inl e ↦ rw e (
          rw (listed-row s hosts r (keep (of_task id) rows) v.0)
            (elim (Bool-cases (is_state r.state s)) [
              | inl f ↦ rw f (ground (arith, rest))
              | inr f ↦ rw f (ground (arith, rest))
            ]))
    ]

has-none :
    (s : TaskState) (id h : ℕ) (rows : List TaskHostRow)
    → any (is_row id h) rows ≡ false
    → has s id h rows ≡ false
has-none s id h [] e = refl
has-none s id h (r ∷ rows) e = ground (arith, has-none s id h rows)

-- The rows of the task, of which `r` is the first.
has-first :
    (s : TaskState) (id : ℕ) (r : TaskHostRow) (rows : List TaskHostRow)
    → any (is_row r.task_id r.host_id) rows ≡ false
    → of_task id r ≡ true
    → has s id r.host_id rows ≡ false
has-first s id r rows e f =
    has-none s id r.host_id rows
      (ap (λ t. any (is_row t r.host_id) rows) (sym (==→eq r.task_id id f)) ∙ e)

Once-listed :
    (s : TaskState) (id : ℕ) (hosts : List HostRow) (rows : List TaskHostRow)
    → All (RefersTo hosts) rows
    → IsKeyed rows
    → Once (listed s hosts (keep (of_task id) rows))
unfolding joined
Once-listed s id hosts [] v k = tt
Once-listed s id hosts (r ∷ rows) v k =
    let rest = Once-listed s id hosts rows v.1 k.1 in
    elim (Bool-cases (of_task id r)) [
      | inr e ↦ rw e rest
      | inl e ↦ rw e (
          rw (listed-row s hosts r (keep (of_task id) rows) v.0)
            (elim (Bool-cases (is_state r.state s)) [
              | inl f ↦
                  rw f
                    (elem-listed s id r.host_id hosts rows v.1 ∙ has-first s id r rows k.0 e, rest)
              | inr f ↦ rw f rest
            ]))
    ]

-- A row of the task is the only one of its host.
abbrev Only : TaskState → ℕ → List TaskHostRow → TaskHostRow → Type 0
Only s id rows r = of_task id r ≡ true → has s id r.host_id rows ≡ is_state r.state s

Only-later :
    (s : TaskState) (id : ℕ) (x : TaskHostRow) (xs rows : List TaskHostRow)
    → any (is_row x.task_id x.host_id) rows ≡ false
    → All (Only s id xs) rows
    → All (Only s id (x ∷ xs)) rows
Only-later s id x xs [] e v = tt
Only-later s id x xs (r ∷ rows) e v = (
  (λ f.
      let other : (is_row id r.host_id x && is_state x.state s) ≡ false = ground (arith, e, f) in
      rw other (v.0 f)),
  Only-later s id x xs rows (ground arith) v.1,
)

All-Only :
    (s : TaskState) (id : ℕ) (rows : List TaskHostRow) → IsKeyed rows → All (Only s id rows) rows
All-Only s id [] k = tt
All-Only s id (r ∷ rows) k = (
  (λ f. rw (has-first s id r rows k.0 f) (ground (arith, f, ==_refl r.host_id))),
  Only-later s id r rows rows k.0 (All-Only s id rows k.1),
)

-- A row of the task `id` that waits has started, or has failed with a message that names the task
-- that is next for its host; any other row is as it was.
unfoldable pub claimed : (ℕ → ℕ) → ℕ → Db → TaskHostRow → TaskHostRow
claimed now id db r =
    if of_task id r && is_state r.state pending
    then verdict (id_of (get_next r.host_id db)) (now r.host_id) id r
    else r

pending-active : (s : TaskState) → (is_state s pending && is_active s) ≡ is_state s pending
pending-active pending = refl
pending-active s = refl

map-claimed :
    (now : ℕ → ℕ) (id : ℕ) (db : Db) (hs : List ℕ) (rows : List TaskHostRow)
    → All (λ r. of_task id r ≡ true → elem r.host_id hs ≡ is_state r.state pending) rows
    → map
        (λ r.
          if of_task id r && (elem r.host_id hs && is_active r.state)
          then verdict (id_of (get_next r.host_id db)) (now r.host_id) id r
          else r)
        rows
      ≡ map (claimed now id db) rows
unfolding claimed
map-claimed now id db hs [] v = refl
map-claimed now id db hs (r ∷ rows) v =
    let rest = map-claimed now id db hs rows v.1 in
    let test : (of_task id r && (elem r.host_id hs && is_active r.state))
        ≡ (of_task id r && is_state r.state pending) =
      ground (arith, v.0, pending-active r.state) in
    λ i.
      (if test i then verdict (id_of (get_next r.host_id db)) (now r.host_id) id r else r) ∷ rest i

-- Where every row refers to a host, and no host has two rows of a task, a claim of a task that was
-- just read does this to the rows: each row of the task that was pending is running since the time
-- of its host's call, if the host's next task is this one or there is none; if it is another one,
-- the row has failed at that time, with a message that names that task. Every other row is as it
-- was.
pub claim-claimed :
    (now : ℕ → ℕ) (t : TaskRow) (db : Db)
    → All (RefersTo db.hosts) db.task_hosts
    → IsKeyed db.task_hosts
    → (claim now (to_task db t) db).task_hosts ≡ map (claimed now t.id db) db.task_hosts
unfolding claim hosts_in to_task
claim-claimed now t db v k =
    let hs = listed pending db.hosts (keep (of_task t.id) db.task_hosts) in
    claim_hosts-turns (λ h. id_of (get_next h db)) now (to_task db t) hs db
      (Once-listed pending t.id db.hosts db.task_hosts v k) (λ h e. refl)
    ∙ map-claimed now t.id db hs db.task_hosts
        (listed_here db.task_hosts (All-Only pending t.id db.task_hosts k))
  where
    listed_here :
        (rows : List TaskHostRow)
        → All (Only pending t.id db.task_hosts) rows
        → All
            (λ r.
              of_task t.id r ≡ true
              → elem r.host_id (listed pending db.hosts (keep (of_task t.id) db.task_hosts))
                ≡ is_state r.state pending)
            rows
    listed_here [] o = tt
    listed_here (r ∷ rows) o = (
      (λ f. elem-listed pending t.id r.host_id db.hosts db.task_hosts v ∙ o.0 f),
      listed_here rows o.1,
    )
