-- ===== src/Agent/Reports/Again.antt =====
-- A report that is repeated (crates/api/agent/src/task.rs).
use imaged.Base.{
  ℕ, Bool, Option, none, some, ◌≡◌, refl, ap, ◌∙◌, update_where, keep, find, elem, [], ◌∷◌,
}
use imaged.Base.Assoc
use imaged.Base.Sorting.{sort_by}
use imaged.Mac.{canonical_mac}
use imaged.Text.{Text}
use imaged.Error.{Result, ok, err, ◌>>=◌}
use imaged.Task.{Task, TaskState, done, failed}
use imaged.Store.{TaskHostRow, Db}
use imaged.Store
use imaged.Store.Hosts
use imaged.Store.Images
use imaged.Agent.Reports
use imaged.Agent.Reports.Rows.{unsettled, Settles}
use imaged.Agent.Reports.Settled.{IsSettled, task_to_settle-IsNext, settled_again}

fails_row : ℕ → Text → TaskHostRow → TaskHostRow
fails_row now error r = record r { state = failed; finished_at = some now; error = some error }

fails_row-Settles : (now : ℕ) (error : Text) → Settles failed (fails_row now error)
unfolding fails_row
fails_row-Settles now error = record {
  task = λ r. refl;
  host = λ r. refl;
  state = λ r. refl;
  closed = λ r. refl;
}

one-same :
    (d db : Db) (o : Option Store.HostRow)
    → d.host_partitions ≡ db.host_partitions
    → Hosts.one o d ≡ Hosts.one o db
unfolding Hosts.one Hosts.load_partitions
one-same d db none e = refl
one-same d db (some h) e =
    ap
      (λ rows. ok (
        Hosts.into_host h (
          Assoc.or_default (
            Assoc.get h.id (
              Assoc.push_all (λ p. p.host_id) Hosts.partition_of_host_row
                (sort_by (λ p. p.host_id)
                  (sort_by (λ p. p.number) (keep (λ p. elem p.host_id (h.id ∷ [])) rows)))
                [])))))
      e

-- What is found by an address depends on the hosts and their partitions only.
get_by_mac-same :
    (quoted : Text → Text) (mac : Text) (d db : Db)
    → d.hosts ≡ db.hosts
    → d.host_partitions ≡ db.host_partitions
    → Hosts.get_by_mac quoted mac d ≡ Hosts.get_by_mac quoted mac db
unfolding Hosts.get_by_mac
get_by_mac-same quoted mac d db e f = go (canonical_mac quoted mac)
  where
    go :
        (r : Result Text)
        → (r >>= λ address. Hosts.one (find (Hosts.has_mac address) d.hosts) d)
          ≡ (r >>= λ address. Hosts.one (find (Hosts.has_mac address) db.hosts) db)
    go (err x) = refl
    go (ok address) =
        ap (λ hosts. Hosts.one (find (Hosts.has_mac address) hosts) d) e
        ∙ one-same d db (find (Hosts.has_mac address) db.hosts) f

mark_failed-IsSettled :
    (quoted : Text → Text) (mac : Text) (task_id now : ℕ) (error : Text) (image : Option ℕ)
    (db : Db) (t : Task) (host_id : ℕ)
    → t.id ≡ task_id
    → IsSettled quoted mac task_id failed host_id db
        (Store.mark_failed now t.id host_id error (Reports.fault_image error image db))
unfolding Store.mark_failed Store.update_hosts Images.mark_faulted Images.update_image fails_row
mark_failed-IsSettled quoted mac task_id now error none db t host_id e = record {
  f = fails_row now error;
  settles = fails_row-Settles now error;
  rows = ap (λ k. update_where (unsettled k host_id) (fails_row now error) db.task_hosts) e;
  hosts = refl;
  tasks = refl;
  address = get_by_mac-same quoted mac _ db refl refl;
}
mark_failed-IsSettled quoted mac task_id now error (some image_id) db t host_id e = record {
  f = fails_row now error;
  settles = fails_row-Settles now error;
  rows = ap (λ k. update_where (unsettled k host_id) (fails_row now error) db.task_hosts) e;
  hosts = refl;
  tasks = refl;
  address = get_by_mac-same quoted mac _ db refl refl;
}

finishes_row : ℕ → TaskHostRow → TaskHostRow
finishes_row now r = record r { state = done; finished_at = some now }

mark_finished-IsSettled :
    (quoted : Text → Text) (mac : Text) (task_id now : ℕ) (db d : Db) (t : Task) (host_id : ℕ)
    → t.id ≡ task_id
    → d.task_hosts ≡ db.task_hosts
    → d.tasks ≡ db.tasks
    → d.hosts ≡ db.hosts
    → d.host_partitions ≡ db.host_partitions
    → IsSettled quoted mac task_id done host_id db (Store.mark_finished now t.id host_id d)
unfolding Store.mark_finished Store.update_hosts finishes_row
mark_finished-IsSettled quoted mac task_id now db d t host_id e rows tasks hosts parts = record {
  f = finishes_row now;
  settles = record { task = λ r. refl; host = λ r. refl; state = λ r. refl; closed = λ r. refl };
  rows =
      ap (update_where (unsettled t.id host_id) (finishes_row now)) rows
      ∙ ap (λ k. update_where (unsettled k host_id) (finishes_row now) db.task_hosts) e;
  hosts = hosts;
  tasks = tasks;
  address = get_by_mac-same quoted mac _ db hosts parts;
}

module _ {F : Type 0} (quoted : Text → Text) (mac : Text) (task_id : ℕ) where
  settled_by :
      (outcome : TaskState) (s d : Reports.Server F) (t : Task) (host_id : ℕ)
      → Reports.task_to_settle quoted mac task_id outcome s.db ≡ ok (some (t, host_id))
      → (t.id ≡ task_id → IsSettled quoted mac task_id outcome host_id s.db d.db)
      → Reports.task_to_settle quoted mac task_id outcome d.db ≡ ok none
  settled_by outcome s d t host_id e settled =
      let next = task_to_settle-IsNext quoted mac task_id outcome s.db t host_id e in
      settled_again quoted mac task_id outcome s.db d.db t host_id next (settled next.id)

  fail-again :
      (now : ℕ) (error : Text) (s : Reports.Server F) (r : Result (Option (Task × ℕ)))
      → Reports.task_to_settle quoted mac task_id failed s.db ≡ r
      → (Reports.fail now error r s).0 ≡ ok tt
      → Reports.task_to_settle quoted mac task_id failed (Reports.fail now error r s).1.db ≡ ok none
  fail-again now error s (err x) e h = cc
  fail-again now error s (ok none) e h = e
  fail-again now error s (ok (some (t, host_id))) e h =
      settled_by failed s (Reports.fail now error (ok (some (t, host_id))) s).1 t host_id e (
        mark_failed-IsSettled quoted mac task_id now error (Reports.captured_image t) s.db t
          host_id)

  finish_capture-IsSettled :
      (now : ℕ) (t : Task) (host_id image_id : ℕ) (lacks : Option Text) (s : Reports.Server F)
      → (Reports.finish_capture now t host_id image_id lacks s).0 ≡ ok tt
      → t.id ≡ task_id
      → IsSettled quoted mac task_id done host_id s.db
          (Reports.finish_capture now t host_id image_id lacks s).1.db
  unfolding Images.mark_image_finished Images.update_image
  finish_capture-IsSettled now t host_id image_id none s h e =
      mark_finished-IsSettled quoted mac task_id now s.db
        (Images.mark_image_finished now image_id s.db) t host_id e refl refl refl refl
  finish_capture-IsSettled now t host_id image_id (some error) s h e = cc

  finish_on-IsSettled :
      (table_exists : ℕ → Bool) (now : ℕ) (t : Task) (host_id : ℕ) (image : Option ℕ)
      (s : Reports.Server F)
      → (Reports.finish_on table_exists now t host_id image s).0 ≡ ok tt
      → t.id ≡ task_id
      → IsSettled quoted mac task_id done host_id s.db
          (Reports.finish_on table_exists now t host_id image s).1.db
  finish_on-IsSettled table_exists now t host_id none s h e =
      mark_finished-IsSettled quoted mac task_id now s.db s.db t host_id e refl refl refl refl
  finish_on-IsSettled table_exists now t host_id (some image_id) s h e =
      finish_capture-IsSettled now t host_id image_id
        (Reports.incomplete table_exists t image_id s.db) s h e

  finish-again :
      (table_exists : ℕ → Bool) (now : ℕ) (s : Reports.Server F) (r : Result (Option (Task × ℕ)))
      → Reports.task_to_settle quoted mac task_id done s.db ≡ r
      → (Reports.finish table_exists now r s).0 ≡ ok tt
      → Reports.task_to_settle quoted mac task_id done (Reports.finish table_exists now r s).1.db
        ≡ ok none
  finish-again table_exists now s (err x) e h = cc
  finish-again table_exists now s (ok none) e h = e
  finish-again table_exists now s (ok (some (t, host_id))) e h =
      settled_by done s (Reports.finish table_exists now (ok (some (t, host_id))) s).1 t host_id e
        (finish_on-IsSettled table_exists now t host_id (Reports.captured_image t) s h)

  deliver-settled :
      (r : Reports.Report) (now : ℕ) (s : Reports.Server F)
      → (Reports.deliver quoted r now mac task_id s).0 ≡ ok tt
      → Reports.task_to_settle quoted mac task_id
          (Reports.outcome_of r)
          (Reports.deliver quoted r now mac task_id s).1.db
        ≡ ok none
  unfolding Reports.deliver Reports.mark_finished Reports.mark_failed
  deliver-settled (Reports.finishes table_exists) now s =
      finish-again table_exists now s (Reports.task_to_settle quoted mac task_id done s.db) refl
  deliver-settled (Reports.fails error) now s =
      fail-again now error s (Reports.task_to_settle quoted mac task_id failed s.db) refl

  -- Once a report of an agent that its task is done, or that it failed, has been answered without
  -- an error, the same report is answered without an error again, at any later time, and changes
  -- nothing.
  pub deliver-deliver :
      (r : Reports.Report) (now later : ℕ) (s : Reports.Server F)
      → (Reports.deliver quoted r now mac task_id s).0 ≡ ok tt
      → Reports.deliver quoted r later mac task_id (Reports.deliver quoted r now mac task_id s).1
        ≡ (ok tt, (Reports.deliver quoted r now mac task_id s).1)
  unfolding Reports.deliver Reports.mark_finished Reports.mark_failed
  deliver-deliver (Reports.finishes table_exists) now later s h =
      let left = (Reports.deliver quoted (Reports.finishes table_exists) now mac task_id s).1 in
      ap (λ x. Reports.finish table_exists later x left)
        (deliver-settled (Reports.finishes table_exists) now s h)
  deliver-deliver (Reports.fails error) now later s h =
      let left = (Reports.deliver quoted (Reports.fails error) now mac task_id s).1 in
      ap (λ x. Reports.fail later error x left) (deliver-settled (Reports.fails error) now s h)
