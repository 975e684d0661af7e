-- ===== src/Store/Creation/Created.antt =====
-- What the database holds once a task is created, written out.
use imaged.Base.{ℕ, suc, ◌≡◌, refl, ap, Option, none, some, List, [], ◌∷◌, ◌++◌, map}
use imaged.Base.Assoc
use imaged.Task.{pending}
use imaged.Store.{TaskRow, TaskHostRow, InputRow, Db}
use imaged.Store.Creation.{InputValues, Request, input_rows_of}

-- What a new task's row holds: the request's type and image, and the time of the call.
abbrev pub new_task : ℕ → ℕ → Request → TaskRow
new_task id now q = record {
  id = id;
  task_type = q.task_type;
  image_id = q.image_id;
  created_at = now;
}

-- What the row of a host of a new task holds: the host waits, and nothing has happened to it.
abbrev pub new_host : ℕ → Request → ℕ → TaskHostRow
new_host id q h = record {
  task_id = id;
  host_id = h;
  state = pending;
  error = none;
  started_at = none;
  finished_at = none;
  partuuid = Assoc.get h q.partuuids;
}

-- The inputs of one host, a row for each name.
abbrev pub new_inputs : ℕ → ℕ → InputValues → List InputRow
new_inputs id h [] = []
new_inputs id h ((name, value) ∷ values) =
    record { task_id = id; host_id = h; name = name; value = value } ∷ new_inputs id h values

abbrev pub new_inputs_of : ℕ → ℕ → Option InputValues → List InputRow
new_inputs_of id h none = []
new_inputs_of id h (some values) = new_inputs id h values

unfoldable pub all_inputs : ℕ → Request → List ℕ → List InputRow
all_inputs id q [] = []
all_inputs id q (h ∷ hs) = new_inputs_of id h (Assoc.get h q.inputs) ++ all_inputs id q hs

-- The database with the new task: a row for it, and for each host one that is pending, with its
-- inputs and its partition.
unfoldable pub created : ℕ → Request → Db → Db
unfolding all_inputs
created now q db = record db {
  next_id = suc db.next_id;
  tasks = db.tasks ++ new_task db.next_id now q ∷ [];
  task_hosts = db.task_hosts ++ map (new_host db.next_id q) q.host_ids;
  task_host_inputs = db.task_host_inputs ++ all_inputs db.next_id q q.host_ids;
}

new_inputs_lem :
    (id h : ℕ) (values : InputValues) → input_rows_of id h (some values) ≡ new_inputs id h values
unfolding input_rows_of
new_inputs_lem id h [] = refl
new_inputs_lem id h (v ∷ values) =
    ap (◌∷◌ (record { task_id = id; host_id = h; name = v.0; value = v.1 }))
      (new_inputs_lem id h values)

pub input_rows-new :
    (id h : ℕ) (o : Option InputValues) → input_rows_of id h o ≡ new_inputs_of id h o
unfolding input_rows_of
input_rows-new id h none = refl
input_rows-new id h (some values) = new_inputs_lem id h values
