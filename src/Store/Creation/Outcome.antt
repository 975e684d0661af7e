-- ===== src/Store/Creation/Outcome.antt =====
-- When a task is created, and what the database then holds.
use imaged.Base.{
  ℕ, suc, ◌<◌, Bool, true, false, not, ◌&&◌, ◌||◌, ◌≡◌, ◌⊎◌, inl, inr, refl, ap, ◌∙◌, arith, Option,
  none, some, List, [], ◌∷◌, ◌++◌, ◌==◌, map, any, find, All, Bool-cases,
}
use mathlib.Core.List.{append-nil, append_assoc}
use imaged.Text.{Text}
use imaged.Error.{
  ok, err, AppError, from_sqlx, database_error, unique_violation, foreign_key_violation,
}
use imaged.Base.Assoc
use imaged.Store.{TaskRow, TaskHostRow, HostRow, ImageRow, Db, is_row}
use imaged.Store.Views.{to_task}
use imaged.Store.Queries.{get, fetch_one}
use imaged.Store.Creation.Created.{new_task, all_inputs, created, input_rows-new}
use imaged.Store.Creation.{
  Request, host_exists, image_exists, task_row, host_row, input_rows, add_host, insert_host,
  insert_hosts, insert_task, create_with_inputs,
}

-- The hosts are known, and none is named twice.
unfoldable pub hosts_valid : List ℕ → List HostRow → Bool
hosts_valid [] hosts = true
hosts_valid (h ∷ hs) hosts =
    not (any (λ k. k == h) hs) && (any (λ r. r.id == h) hosts && hosts_valid hs hosts)

abbrev pub image_valid : Option ℕ → List ImageRow → Bool
image_valid none images = true
image_valid (some id) images = any (λ i. i.id == id) images

-- The request's image, if it names one, and its hosts are known, and no host is named twice.
unfoldable pub is_valid : Request → Db → Bool
unfolding hosts_valid
is_valid q db = image_valid q.image_id db.images && hosts_valid q.host_ids db.hosts

image_exists-valid :
    (id : Option ℕ) (images : List ImageRow) → image_exists id images ≡ image_valid id images
unfolding image_exists
image_exists-valid none images = refl
image_exists-valid (some id) images = refl

host_exists-any : (h : ℕ) (hosts : List HostRow) → host_exists h hosts ≡ any (λ r. r.id == h) hosts
unfolding host_exists
host_exists-any h hosts = refl

-- Every id in use is below the counter.
pub record IsFresh (db : Db) : Type 0 where
  pub ids : All (λ t. t.id < db.next_id) db.tasks
  pub rows : All (λ r. r.task_id < db.next_id) db.task_hosts

any-append :
    (p : TaskHostRow → Bool) (xs ys : List TaskHostRow) → any p (xs ++ ys) ≡ (any p xs || any p ys)
any-append p [] ys = refl
any-append p (x ∷ xs) ys = ground (arith, any-append p xs ys)

-- None of the hosts has a row of the task yet.
abbrev NoRows : ℕ → List ℕ → List TaskHostRow → Type 0
NoRows id [] rows = Unit
NoRows id (h ∷ hs) rows = (any (is_row id h) rows ≡ false) × NoRows id hs rows

NoRows-add :
    (id h : ℕ) (q : Request) (hs : List ℕ) (rows : List TaskHostRow)
    → any (λ k. k == h) hs ≡ false
    → NoRows id hs rows
    → NoRows id hs (rows ++ host_row id q h ∷ [])
NoRows-add id h q [] rows e v = tt
NoRows-add id h q (k ∷ hs) rows e v = (
  rw (any-append (is_row id k) rows (host_row id q h ∷ [])) (ground (arith, v.0)),
  NoRows-add id h q hs rows (ground arith) v.1,
)

-- Some of the hosts has a row of the task already.
abbrev Taken : ℕ → List ℕ → List TaskHostRow → Type 0
Taken id [] rows = ⊥
Taken id (h ∷ hs) rows = (any (is_row id h) rows ≡ true) ⊎ Taken id hs rows

Taken-append :
    (id : ℕ) (hs : List ℕ) (rows more : List TaskHostRow)
    → Taken id hs rows
    → Taken id hs (rows ++ more)
Taken-append id [] rows more t = absurd t
Taken-append id (h ∷ hs) rows more (inl e) = inl (rw (any-append (is_row id h) rows more, e) refl)
Taken-append id (h ∷ hs) rows more (inr t) = inr (Taken-append id hs rows more t)

Taken-again :
    (id h : ℕ) (q : Request) (hs : List ℕ) (rows : List TaskHostRow)
    → any (λ k. k == h) hs ≡ true
    → Taken id hs (rows ++ host_row id q h ∷ [])
Taken-again id h q [] rows e = cc
Taken-again id h q (k ∷ hs) rows e = elim (Bool-cases (k == h)) [
  | inl same ↦
      inl (rw (any-append (is_row id k) rows (host_row id q h ∷ [])) (ground (arith, same)))
  | inr other ↦ inr (Taken-again id h q hs rows (ground arith))
]

-- A fault that the first host does not have is among the others, once it is inserted.
later_fault :
    (id : ℕ) (q : Request) (h : ℕ) (hs : List ℕ) (db : Db)
    → hosts_valid (h ∷ hs) db.hosts ≡ false ⊎ Taken id (h ∷ hs) db.task_hosts
    → any (is_row id h) db.task_hosts ≡ false
    → host_exists h db.hosts ≡ true
    → hosts_valid hs db.hosts ≡ false ⊎ Taken id hs (db.task_hosts ++ host_row id q h ∷ [])
unfolding hosts_valid
later_fault id q h hs db (inl e) free known = elim (Bool-cases (any (λ k. k == h) hs)) [
  | inl again ↦ inr (Taken-again id h q hs db.task_hosts again)
  | inr once ↦ inl (ground (arith, known, host_exists-any h db.hosts))
]
later_fault id q h hs db (inr (inl taken)) free known = cc
later_fault id q h hs db (inr (inr t)) free known =
    inr (Taken-append id hs db.task_hosts (host_row id q h ∷ []) t)

NoRows-fresh :
    (id : ℕ) (hs : List ℕ) (rows : List TaskHostRow)
    → All (λ r. r.task_id < id) rows
    → NoRows id hs rows
NoRows-fresh id [] rows v = tt
NoRows-fresh id (h ∷ hs) rows v = (unused rows v, NoRows-fresh id hs rows v)
  where
    unused :
        (rows : List TaskHostRow) → All (λ r. r.task_id < id) rows → any (is_row id h) rows ≡ false
    unused [] v = refl
    unused (r ∷ rows) v = ground (arith, v.0, unused rows v.1)

find-fresh :
    (t : TaskRow) (ts : List TaskRow)
    → All (λ u. u.id < t.id) ts
    → find (λ u. u.id == t.id) (ts ++ t ∷ []) ≡ some t
find-fresh t [] v = ground arith
find-fresh t (u ∷ us) v = ground (arith, v.0, find-fresh t us v.1)

get-created :
    (now : ℕ) (q : Request) (db : Db)
    → All (λ t. t.id < db.next_id) db.tasks
    → get db.next_id (created now q db) ≡ ok (to_task (created now q db) (task_row now q db))
unfolding get created
get-created now q db v = rw (find-fresh (task_row now q db) db.tasks v, fetch_one)

abbrev with_task : ℕ → Request → Db → Db
with_task now q db = record db {
  next_id = suc db.next_id;
  tasks = db.tasks ++ task_row now q db ∷ [];
}

module _ (unique foreign : Text) where
  insert_hosts-valid :
      (id : ℕ) (q : Request) (hs : List ℕ) (db : Db)
      → NoRows id hs db.task_hosts
      → hosts_valid hs db.hosts ≡ true
      → insert_hosts unique foreign id q hs db
        ≡ ok (record db {
          task_hosts = db.task_hosts ++ map (host_row id q) hs;
          task_host_inputs = db.task_host_inputs ++ all_inputs id q hs;
        })
  unfolding insert_hosts hosts_valid all_inputs input_rows
  insert_hosts-valid id q [] db v e = rw (append-nil db.task_hosts, append-nil db.task_host_inputs)
  insert_hosts-valid id q (h ∷ hs) db v e =
      let fresh : any (λ k. k == h) hs ≡ false = ground arith in
      let known : host_exists h db.hosts ≡ true = ground (arith, host_exists-any h db.hosts) in
      let step : insert_host unique foreign id q h db ≡ ok (add_host id q h db) =
        unfold insert_host in rw (v.0, known) in
      rw step (
        insert_hosts-valid id q hs (add_host id q h db)
          (NoRows-add id h q hs db.task_hosts fresh v.1) (ground arith)
        ∙ regroup id q h hs db)
    where
      regroup :
          (id : ℕ) (q : Request) (h : ℕ) (hs : List ℕ) (db : Db)
          → ok (record (add_host id q h db) {
            task_hosts = (add_host id q h db).task_hosts ++ map (host_row id q) hs;
            task_host_inputs = (add_host id q h db).task_host_inputs ++ all_inputs id q hs;
          })
            ≡ ok (record db {
              task_hosts = db.task_hosts ++ map (host_row id q) (h ∷ hs);
              task_host_inputs = db.task_host_inputs ++ all_inputs id q (h ∷ hs);
            })
      regroup id q h hs db =
          rw
            (
              input_rows-new id h (Assoc.get h q.inputs),
              append_assoc db.task_hosts,
              append_assoc db.task_host_inputs,
            )
            refl

  -- A host that is unknown, or named a second time, stops the insertion.
  insert_hosts-invalid :
      (id : ℕ) (q : Request) (hs : List ℕ) (db : Db)
      → hosts_valid hs db.hosts ≡ false ⊎ Taken id hs db.task_hosts
      → (e : AppError) × (insert_hosts unique foreign id q hs db ≡ err e)
  unfolding insert_hosts hosts_valid
  insert_hosts-invalid id q [] db (inl e) = cc
  insert_hosts-invalid id q [] db (inr t) = absurd t
  insert_hosts-invalid id q (h ∷ hs) db bad = elim (Bool-cases (any (is_row id h) db.task_hosts)) [
    | inl taken ↦
        (from_sqlx (database_error (unique_violation unique)), unfold insert_host in rw taken)
    | inr free ↦ elim (Bool-cases (host_exists h db.hosts)) [
      | inr unknown ↦ (
        from_sqlx (database_error (foreign_key_violation foreign)),
        unfold insert_host in rw (free, unknown),
      )
      | inl known ↦
          let step : insert_host unique foreign id q h db ≡ ok (add_host id q h db) =
            unfold insert_host in rw (free, known) in
          rw step (
            insert_hosts-invalid id q hs (add_host id q h db)
              (later_fault id q h hs db bad free known))
    ]
  ]

  insert_task-valid :
      (now : ℕ) (q : Request) (db : Db)
      → IsFresh db
      → is_valid q db ≡ true
      → insert_task unique foreign now q db ≡ ok (created now q db)
  unfolding insert_task is_valid created
  insert_task-valid now q db fresh v =
      let image : image_exists q.image_id db.images ≡ true =
        ground (arith, image_exists-valid q.image_id db.images) in
      let hosts : hosts_valid q.host_ids db.hosts ≡ true = ground arith in
      rw image (
        insert_hosts-valid db.next_id q q.host_ids (with_task now q db)
          (NoRows-fresh db.next_id q.host_ids db.task_hosts fresh.rows) hosts)

  insert_task-invalid :
      (now : ℕ) (q : Request) (db : Db)
      → is_valid q db ≡ false
      → (e : AppError) × (insert_task unique foreign now q db ≡ err e)
  unfolding insert_task is_valid
  insert_task-invalid now q db v = elim (Bool-cases (image_exists q.image_id db.images)) [
    | inl image ↦ rw image (
        insert_hosts-invalid db.next_id q q.host_ids (with_task now q db)
          (inl (ground (arith, image, image_exists-valid q.image_id db.images))))
    | inr image ↦ (from_sqlx (database_error (foreign_key_violation foreign)), rw image)
  ]

  -- Where every id in use is below the counter, a request whose image and hosts are known, and that
  -- names no host twice, creates its task: the database gains a row for the task and, for each host
  -- in the request's order, a row that is pending, with its partition and its inputs, and nothing
  -- else but the counter changes. The result is the new task as it is read back.
  pub create_with_inputs-valid :
      (now : ℕ) (q : Request) (db : Db)
      → IsFresh db
      → is_valid q db ≡ true
      → create_with_inputs unique foreign now q db
        ≡ (ok (to_task (created now q db) (new_task db.next_id now q)), created now q db)
  unfolding create_with_inputs
  create_with_inputs-valid now q db fresh v =
      rw (insert_task-valid now q db fresh v, create_with_inputs)
        (ap (λ r. (r, created now q db)) (get-created now q db fresh.ids))

  -- Any other request is refused, and leaves the database as it was.
  pub create_with_inputs-invalid :
      (now : ℕ) (q : Request) (db : Db)
      → is_valid q db ≡ false
      → (e : AppError) × (create_with_inputs unique foreign now q db ≡ (err e, db))
  unfolding create_with_inputs
  create_with_inputs-invalid now q db v =
      let (e, failed) = insert_task-invalid now q db v in (e, rw (failed, create_with_inputs))
