-- ===== src/Store/Views.antt =====
-- The view `tasks_with_hosts` (crates/core/migrations/20261026120000_single_partition_images.sql)
-- and the task that a row of it becomes (crates/core/src/repository/task.rs).
use imaged.Base.{
  ℕ, Bool, true, false, not, ◌&&◌, ◌≡◌, refl, Option, none, some, arith, ◌==◌, List, [], ◌∷◌,
  if◌then◌else◌, map, any, all, keep, find, is_some, All, ap, ◌∙◌, sym,
}
use imaged.Text.{Text}
use imaged.Task.{
  TaskState, pending, running, done, failed, cancelled, partial, is_state, is_active, TaskHost,
  Task, aggregate, aggregate_state,
}
use imaged.Store.{TaskRow, TaskHostRow, HostRow, ImageRow, Db, of_task}

-- `FROM task_hosts th JOIN hosts h ON h.id = th.host_id`, for one row; ids are unique in `hosts`.
unfoldable pub join_host : TaskHostRow → Option HostRow → List TaskHost → List TaskHost
join_host r none rest = rest
join_host r (some h) rest =
    record {
      host_id = r.host_id;
      host_name = h.name;
      mac = h.mac;
      state = r.state;
      error = r.error;
      started_at = r.started_at;
      finished_at = r.finished_at;
      partuuid = r.partuuid;
    }
    ∷ rest

unfoldable pub joined : List HostRow → List TaskHostRow → List TaskHost
unfolding join_host
joined hosts [] = []
joined hosts (r ∷ rows) = join_host r (find (λ h. h.id == r.host_id) hosts) (joined hosts rows)

image_of : Option ℕ → List ImageRow → Option ImageRow
image_of none images = none
image_of (some id) images = find (λ i. i.id == id) images

name_of : Option ImageRow → Option Text
name_of none = none
name_of (some i) = some i.name

deleted_of : Option ImageRow → Bool
deleted_of none = false
deleted_of (some i) = i.deleted

-- One row of the view, as a task.
unfoldable pub to_task : Db → TaskRow → Task
unfolding joined image_of name_of deleted_of
to_task db t = record {
  id = t.id;
  task_type = t.task_type;
  hosts = joined db.hosts (keep (of_task t.id) db.task_hosts);
  image_id = t.image_id;
  image_name = name_of (image_of t.image_id db.images);
  image_deleted = deleted_of (image_of t.image_id db.images);
  created_at = t.created_at;
}

abbrev exists : Db → ℕ → (TaskState → Bool) → Bool
exists db id p = any (λ r. of_task id r && p r.state) db.task_hosts

-- The column `state` of the view.
unfoldable pub view_state : Db → ℕ → TaskState
view_state db id =
    if not (exists db id (λ _. true))
    then cancelled
    else if exists db id is_active
    then if exists db id (λ s. not (is_state s pending)) then running else pending
    else if not (exists db id (λ s. not (is_state s done)))
    then done
    else if not (exists db id (λ s. not (is_state s cancelled)))
    then cancelled
    else if not (exists db id (λ s. is_state s done))
    then failed
    else partial

-- `task_hosts.host_id REFERENCES hosts(id)`.
abbrev pub RefersTo : List HostRow → TaskHostRow → Type 0
RefersTo hosts r = is_some (find (λ h. h.id == r.host_id) hosts) ≡ true

states-joined :
    (hosts : List HostRow) (rows : List TaskHostRow)
    → All (RefersTo hosts) rows
    → map (λ h. h.state) (joined hosts rows) ≡ map (λ r. r.state) rows
unfolding joined
states-joined hosts [] v = refl
states-joined hosts (r ∷ rows) v = ground (arith, states-joined hosts rows v.1)

RefersTo-keep :
    (hosts : List HostRow) (p : TaskHostRow → Bool) (rows : List TaskHostRow)
    → All (RefersTo hosts) rows
    → All (RefersTo hosts) (keep p rows)
RefersTo-keep hosts p [] v = tt
RefersTo-keep hosts p (r ∷ rows) v = ground (arith, RefersTo-keep hosts p rows v.1)

any-states :
    (p : TaskState → Bool) (id : ℕ) (rows : List TaskHostRow)
    → any p (map (λ r. r.state) (keep (of_task id) rows))
      ≡ any (λ r. of_task id r && p r.state) rows
any-states p id [] = refl
any-states p id (r ∷ rows) = ground (arith, any-states p id rows)

all-any : (p : TaskState → Bool) (ss : List TaskState) → all p ss ≡ not (any (λ s. not (p s)) ss)
all-any p [] = refl
all-any p (s ∷ ss) = ground (arith, all-any p ss)

-- `aggregate` by existence tests alone.
aggregate-exists :
    (ss : List TaskState)
    → aggregate ss ≡ (
        if not (any (λ _. true) ss)
        then cancelled
        else if any is_active ss
        then if any (λ s. not (is_state s pending)) ss then running else pending
        else if not (any (λ s. not (is_state s done)) ss)
        then done
        else if not (any (λ s. not (is_state s cancelled)) ss)
        then cancelled
        else if not (any (λ s. is_state s done) ss)
        then failed
        else partial)
unfolding aggregate
aggregate-exists [] = refl
aggregate-exists (s ∷ ss) =
    rw (all-any (λ t. is_state t done) (s ∷ ss), all-any (λ t. is_state t cancelled) (s ∷ ss)) refl

-- Where every row of `task_hosts` refers to a host, the status that the listing filters by is the
-- status that `aggregate_state` derives for the task shown.
pub view_state-aggregate_state :
    (db : Db) (t : TaskRow)
    → All (RefersTo db.hosts) db.task_hosts
    → view_state db t.id ≡ aggregate_state (to_task db t)
unfolding view_state aggregate_state to_task
view_state-aggregate_state db t v =
    let rows = keep (of_task t.id) db.task_hosts in
    sym (
      ap aggregate
        (states-joined db.hosts rows (RefersTo-keep db.hosts (of_task t.id) db.task_hosts v))
      ∙ aggregate-exists (map (λ r. r.state) rows)
      ∙ simp any-states)
