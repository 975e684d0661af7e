-- ===== src/Store/Tests.antt =====
-- A small laboratory: host 7 runs a deployment of image 3, and a multicast waits for hosts 7 and 8.
use mathlib.Core.List.{Memᴰ}
use imaged.Base.{ℕ, ◌≡◌, refl, arith, some, none, [], ◌∷◌, List, All, false}
use imaged.Base.Int.{pos}
use imaged.Text.{text}
use imaged.Image.{ready}
use imaged.Error.{AppError, ok, err}
use imaged.Task.{pending, running, deploy, multicast, disk, aggregate_state}
use imaged.Store.{
  TaskRow, TaskHostRow, ScriptRunRow, HostRow, ImageRow, ImagePartitionRow, Db, mark_finished,
}
use imaged.Store.Transitions.{
  Mutation, starts, finishes, retries, cancels, mutate, mutate_all, Rows, Follows, KeptIfDone,
  mutate-Follows, mutate_all-KeptIfDone,
}
use imaged.Store.WellFormed.{IsWellFormed, mutate_all-IsWellFormed, open_run, open_run-mutate}
use imaged.Store.Views.{to_task, view_state, RefersTo, view_state-aggregate_state}
use imaged.Store.Queries.{get_next}
use imaged.Store.Queries.Next.{Offers, NoLater, get_next-NoLater}
use imaged.Store.Paging.{TaskQuery, TaskPage, list, listing}
use imaged.Store.Paging.Complete.{PageOf, list-PageOf}
use imaged.Store.Creation.{Request, create_with_inputs}
use imaged.Store.Creation.Created.{new_task, created}
use imaged.Store.Creation.Outcome.{
  IsFresh, hosts_valid, is_valid, create_with_inputs-valid, create_with_inputs-invalid,
}

abbrev pub deployment : TaskRow
deployment = record { id = 1; task_type = deploy; image_id = some 3; created_at = 100 }

abbrev pub session : TaskRow
session = record { id = 2; task_type = multicast; image_id = some 3; created_at = 90 }

abbrev pub waiting : ℕ → TaskHostRow
waiting host_id = record {
  task_id = 2;
  host_id = host_id;
  state = pending;
  error = none;
  started_at = none;
  finished_at = none;
  partuuid = none;
}

abbrev pub deploying : TaskHostRow
deploying = record (waiting 7) { task_id = 1; state = running; started_at = some 110 }

abbrev pub script : ScriptRunRow
script = record {
  task_id = 1;
  host_id = 7;
  position = 0;
  script_name = text "join-domain";
  exit_code = none;
  output_bytes = 0;
  started_at = 111;
  finished_at = none;
}

abbrev pub host : ℕ → HostRow
host id = record {
  id = id;
  mac = text "02:00:00:00:00:00";
  name = text "lab";
  disk_size_bytes = 1000000;
  disk_error = none;
  ip = none;
}

abbrev pub windows : ImageRow
windows = record {
  id = 3;
  name = text "windows";
  kind = disk;
  captured_at = some 80;
  status = ready;
  error = none;
  root_partition = some 2;
  sector_size = 512;
  deleted = false;
}

abbrev pub windows_partition : ImagePartitionRow
windows_partition = record {
  id = 1;
  image_id = 3;
  partition_number = 2;
  fstype = text "ext4";
  size_bytes = pos 4096;
  fs_uuid = none;
  fs_label = none;
}

abbrev pub lab : Db
lab = record {
  next_id = 3;
  tasks = deployment ∷ session ∷ [];
  task_hosts = deploying ∷ waiting 7 ∷ waiting 8 ∷ [];
  task_host_inputs = [];
  script_runs = script ∷ [];
  script_run_output = [];
  hosts = host 7 ∷ host 8 ∷ [];
  images = windows ∷ [];
  next_image_id = 4;
  next_partition_id = 2;
  image_partitions = windows_partition ∷ [];
  image_scripts = [];
  host_partitions = [];
  next_group_id = 1;
  groups = [];
  group_hosts = [];
  next_script_id = 1;
  scripts = [];
  script_inputs = [];
}

abbrev calls : List Mutation
calls = finishes 120 1 7 ∷ starts 121 2 7 ∷ cancels 122 2 ∷ retries 2 ∷ []

abbrev pub sound : All (RefersTo lab.hosts) lab.task_hosts
sound = (refl, (refl, (refl, tt)))

mutate-Follows_example : Rows Follows lab.task_hosts (mutate (finishes 120 1 7) lab).task_hosts
mutate-Follows_example = mutate-Follows (finishes 120 1 7) lab

mutate_all-KeptIfDone_example :
    Rows KeptIfDone
      (mark_finished 120 1 7 lab).task_hosts
      (mutate_all calls (mark_finished 120 1 7 lab)).task_hosts
mutate_all-KeptIfDone_example = mutate_all-KeptIfDone calls (mark_finished 120 1 7 lab)

waiting-IsWellFormed : (host_id : ℕ) → IsWellFormed (waiting host_id)
waiting-IsWellFormed host_id = record {
  stored = λ e. cc;
  ended = refl;
  explained = refl;
  started = λ e. cc;
}

deploying-IsWellFormed : IsWellFormed deploying
deploying-IsWellFormed = record {
  stored = λ e. cc;
  ended = refl;
  explained = refl;
  started = λ e. refl;
}

mutate_all-IsWellFormed_example : All IsWellFormed (mutate_all calls lab).task_hosts
mutate_all-IsWellFormed_example =
    mutate_all-IsWellFormed calls lab
      (deploying-IsWellFormed, (waiting-IsWellFormed 7, (waiting-IsWellFormed 8, tt)))

open_run-mutate_example : open_run 1 7 (mutate (finishes 120 1 7) lab).script_runs ≡ false
open_run-mutate_example = open_run-mutate (finishes 120 1 7) lab 1 7 refl refl

view_state-aggregate_state_example : view_state lab 1 ≡ aggregate_state (to_task lab deployment)
view_state-aggregate_state_example = view_state-aggregate_state lab deployment sound

offered : Offers 7 lab.tasks lab.task_hosts (waiting 7) session
offered = record {
  row = Memᴰ.tail (Memᴰ.head refl);
  host = refl;
  active = refl;
  task = Memᴰ.tail (Memᴰ.head refl);
  same_id = refl;
}

get_next-NoLater_example :
    (r : TaskHostRow) × (t : TaskRow) × Offers 7 lab.tasks lab.task_hosts r t
    × (get_next 7 lab ≡ some (to_task lab t))
    × NoLater r t (waiting 7) session
get_next-NoLater_example = get_next-NoLater 7 lab (waiting 7) session offered

abbrev first_page : TaskQuery
first_page = record { states = []; task_types = []; host_id = none; before = none; limit = 1 }

abbrev newest : TaskPage
newest = record { tasks = to_task lab session ∷ []; next_cursor = some 2 }

list-PageOf_example : PageOf first_page lab newest
unfolding list listing
list-PageOf_example = list-PageOf first_page lab newest (refl, (refl, tt)) refl

abbrev request : List ℕ → Request
request host_ids = record {
  task_type = deploy;
  host_ids = host_ids;
  image_id = some 3;
  inputs = [];
  partuuids = [];
}

lab-IsFresh : IsFresh lab
lab-IsFresh = record {
  ids = (omega arith, (omega arith, tt));
  rows = (omega arith, (omega arith, (omega arith, tt)));
}

create_with_inputs-valid_example :
    create_with_inputs (text "UNIQUE") (text "FOREIGN KEY") 130 (request (8 ∷ 7 ∷ [])) lab ≡ (
      ok (to_task (created 130 (request (8 ∷ 7 ∷ [])) lab) (new_task 3 130 (request (8 ∷ 7 ∷ [])))),
      created 130 (request (8 ∷ 7 ∷ [])) lab,
    )
unfolding is_valid hosts_valid
create_with_inputs-valid_example =
    create_with_inputs-valid (text "UNIQUE") (text "FOREIGN KEY") 130 (request (8 ∷ 7 ∷ [])) lab
      lab-IsFresh refl

create_with_inputs-invalid_example :
    (e : AppError) × (create_with_inputs
        (text "UNIQUE")
        (text "FOREIGN KEY")
        130
        (request (8 ∷ 9 ∷ []))
        lab
      ≡ (err e, lab))
unfolding is_valid hosts_valid
create_with_inputs-invalid_example =
    create_with_inputs-invalid (text "UNIQUE") (text "FOREIGN KEY") 130 (request (8 ∷ 9 ∷ [])) lab
      refl
