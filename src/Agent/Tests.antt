-- ===== src/Agent/Tests.antt =====
-- A laboratory in which host 7 has a task without a partition before one that it can run.
use imaged.Base.{ℕ, ◌≡◌, refl, arith, some, none, ◌∷◌, [], List, true, false}
use imaged.Text.{Text, text}
use imaged.Error.{Result, ok}
use imaged.Mac.{canonical_mac, from_str, display}
use imaged.Task.{pending, running, deploy, deploy_partition, deploy_work}
use imaged.Store.{Db, TaskRow, TaskHostRow}
use imaged.Store.Tests.{lab, host, waiting, deployment}
use imaged.Store.Hosts
use imaged.Agent
use imaged.Agent.Current.{IsCurrent, open_rows, current_task-IsCurrent}
use imaged.Agent.Reports
use imaged.Agent.Reports.Again.{deliver-deliver}

abbrev atlas : Text
atlas = text "02:ab:00:ff:10:01"

abbrev broken : TaskRow
broken = record deployment { id = 5; task_type = deploy_partition; created_at = 50 }

abbrev two_tasks : Db
two_tasks = record lab {
  tasks = broken ∷ record deployment { id = 6 } ∷ [];
  task_hosts = record (waiting 7) { task_id = 5 } ∷ record (waiting 7) { task_id = 6 } ∷ [];
  hosts = record (host 7) { mac = atlas } ∷ host 8 ∷ [];
}

abbrev told : Agent.AgentTask
told = record { id = 6; work = deploy_work 3 }

current_task-IsCurrent_example :
    IsCurrent 7
      (Agent.current_task (λ k. 200) 7 3 two_tasks).0
      (Agent.current_task (λ k. 200) 7 3 two_tasks).1
unfolding open_rows
current_task-IsCurrent_example = current_task-IsCurrent (λ k. 200) 3 7 two_tasks (omega arith)

abbrev server : Reports.Server ℕ
server = record {
  db = record lab { hosts = record (host 7) { mac = atlas } ∷ host 8 ∷ [] };
  progress = record { hosts = []; multicast = none };
  woken = false;
}

abbrev delivered : ℕ → Reports.Server ℕ → Result (Unit {0}) × Reports.Server ℕ
delivered now s =
    Reports.deliver (λ t. t) (Reports.fails (text "no space")) now (text "02-AB-00-FF-10-01") 1 s

deliver-deliver_example : delivered 130 (delivered 120 server).1 ≡ (ok tt, (delivered 120 server).1)
unfolding Reports.deliver Reports.mark_failed Reports.task_to_settle Hosts.get_by_mac Hosts.one
    canonical_mac from_str display text imaged.Store.Queries.get_next
    imaged.Store.Queries.candidates imaged.Store.Queries.candidates_in imaged.Store.Queries.of_row
    imaged.Store.Queries.row_of imaged.Store.Queries.fetch_optional imaged.Base.Least.least
    imaged.Store.Views.to_task
deliver-deliver_example =
    deliver-deliver (λ t. t) (text "02-AB-00-FF-10-01") 1 (Reports.fails (text "no space")) 120 130
      server refl

-- The task without a partition has failed, and the next one is what the agent is told.
told_next : (Agent.current_task (λ k. 200) 7 3 two_tasks).0 ≡ some told
unfolding Agent.current_task imaged.Store.mark_failed imaged.Store.update_hosts
    imaged.Store.Queries.get_next imaged.Task.work imaged.Task.is_dispatchable_to
    imaged.Store.Queries.candidates imaged.Store.Queries.candidates_in imaged.Store.Queries.of_row
    imaged.Store.Queries.row_of imaged.Store.Queries.fetch_optional imaged.Base.Least.least
    imaged.Store.Views.to_task imaged.Task.partuuid
told_next = refl
