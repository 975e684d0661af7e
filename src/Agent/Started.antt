-- ===== src/Agent/Started.antt =====
-- The start of a task, as an agent reports it (crates/api/agent/src/task.rs, `started`).
-- `clear` is the outcome of `clear_image_data`, which removes the image's files.
use imaged.Base.{
  ℕ, zero, suc, ◌/◌, ◌%◌, Bool, true, false, not, ◌&&◌, ◌||◌, Option, none, some, ◌++◌, ◌==◌, ltb,
  if◌then◌else◌, any,
}
use imaged.Text.{Text, text, decimal}
use imaged.Error.{
  Result, ok, err, AppError, invalid_argument, failed_precondition, ◌>>=◌, ◌>>◌, ensure, ok_or,
}
use imaged.Task.{Task, TaskType, reboot, running, captures, multicasts, hosts_in, rank_of_type}
use imaged.Image.{ready, is_status}
use imaged.Store.{Db}
use imaged.Store
use imaged.Store.Queries.{get_next}
use imaged.Store.Hosts.{Host, get_by_mac}
use imaged.Store.Images
use imaged.Agent.{with_id, not_next}

-- Division by two, with as many rounds as a `u32` has bits.
abbrev halves_to_one : ℕ → ℕ → Bool
halves_to_one zero n = false
halves_to_one (suc rounds) n =
    let rest = halves_to_one rounds (n / 2) in if n == 1 then true else (n % 2 == 0) && rest

abbrev is_power_of_two : ℕ → Bool
is_power_of_two n = halves_to_one 32 n

abbrev check_sector_size : Option ℕ → Result ℕ
check_sector_size none =
    err (invalid_argument (text "a capture must report its logical sector size"))
check_sector_size (some size) = do
  ensure (not (ltb size 512 || not (is_power_of_two size)))
      (invalid_argument (text "invalid logical sector size " ++ decimal size))
  ok size

abbrev pub not_ready : ℕ → AppError
not_ready image_id =
    failed_precondition (text "Image " ++ (decimal image_id ++ text " is not ready"))

abbrev is_running_on : ℕ → Task → Bool
is_running_on host_id t = any (λ id. id == host_id) (hosts_in running t)

-- A capture clears what the image had, whether it starts or is started again.
abbrev begin_capture :
    (ℕ → Result (Unit {0})) → ℕ → Task → ℕ → ℕ → Result ℕ → Db → Result (Unit {0}) × Db
begin_capture clear now t host_id image_id (err e) db = (err e, db)
begin_capture clear now t host_id image_id (ok size) db =
    let captured = Images.start_capture image_id size db in
    elim (clear image_id) [
      | err e ↦ (err e, db)
      | ok _ ↦ (
        ok tt,
        if is_running_on host_id t then captured else Store.start now t.id host_id captured,
      )
    ]

abbrev ready_image : ℕ → Db → Result (Unit {0})
ready_image image_id db =
    Images.get_status image_id db >>= λ status. ensure (is_status status ready) (not_ready image_id)

abbrev begin_restore : ℕ → Task → ℕ → Result (Unit {0}) → Db → Result (Unit {0}) × Db
begin_restore now t host_id (err e) db = (err e, db)
begin_restore now t host_id (ok _) db =
    let started = Store.start now t.id host_id db in
    if multicasts t.task_type
    then if is_running_on host_id t then (ok tt, db) else (
      err (
          invalid_argument
            (text "Task " ++ (decimal t.id ++ text " has not started on this host"))),
      db,
    )
    else (ok tt, started)

abbrev pub is_type : TaskType → TaskType → Bool
is_type a b = rank_of_type a == rank_of_type b

-- What `started` checks before it looks at the kind of the task.
abbrev startable : ℕ → Text → ℕ → Db → Result (Task × ℕ)
startable task_id mac host_id db = do
  t ← ok_or (with_id task_id (get_next host_id db)) (not_next task_id mac)
  ensure (not (is_type t.task_type reboot))
      (invalid_argument (text "Task " ++ (decimal task_id ++ text " is not an imaging task")))
  image_id ←
      ok_or t.image_id
        (invalid_argument (text "Task " ++ (decimal task_id ++ text " has no image")))
  ok (t, image_id)

abbrev begin :
    (ℕ → Result (Unit {0})) → ℕ → Option ℕ → ℕ → Result (Task × ℕ) → Db → Result (Unit {0}) × Db
begin clear now sector_size host_id (err e) db = (err e, db)
begin clear now sector_size host_id (ok (t, image_id)) db =
    if captures t.task_type
    then begin_capture clear now t host_id image_id (check_sector_size sector_size) db
    else begin_restore now t host_id (ready_image image_id db) db

abbrev started_by :
    (ℕ → Result (Unit {0})) → ℕ → Text → ℕ → Option ℕ → Result Host → Db → Result (Unit {0}) × Db
started_by clear now mac task_id sector_size (err e) db = (err e, db)
started_by clear now mac task_id sector_size (ok host) db =
    begin clear now sector_size host.id (startable task_id mac host.id db) db

module _ (quoted : Text → Text) where
  unfoldable pub started :
      (ℕ → Result (Unit {0})) → ℕ → Text → ℕ → Option ℕ → Db → Result (Unit {0}) × Db
  started clear now mac task_id sector_size db =
      started_by clear now mac task_id sector_size (get_by_mac quoted mac db) db
