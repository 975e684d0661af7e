-- ===== src/Multicast/Tests.antt =====
-- The worker's theorems in the laboratory of the store's tests.
use imaged.Base.{ℕ, ◌≡◌, ◌&&◌, not, refl, arith, some, none, [], ◌∷◌, false, any, elem, map}
use imaged.Text.{text, decimal}
use imaged.Base.Least.{least}
use imaged.Error.{internal, Result, ok}
use imaged.Task.{running, failed, Task, is_state}
use imaged.Store.{Db, of_task}
use imaged.Store.Views.{to_task}
use imaged.Store.Queries.{get_next, get_next_multicast}
use imaged.Store.Transitions.{Rows}
use imaged.Store.Tests.{lab, waiting, deploying, session, sound}
use imaged.Registry.{HostRegistry, initial, register, connected_hosts}
use imaged.Multicast.{claim, settle, fail_orphans, drain}
use imaged.Multicast.Rows.{Touches}
use imaged.Multicast.Claim.{claim-Touches}
use imaged.Multicast.Claimed.{claimed, claim-claimed}
use imaged.Multicast.Settle.{settle_failed, settle_done, is_orphan, fail_orphans_lem}
use imaged.Multicast.Drain.{drain-none}

abbrev clock : ℕ → ℕ
clock host_id = 130

-- Host 7 is connected, host 8 is not.
abbrev registry : HostRegistry ℕ
registry = register 7 1 initial

-- The session has begun on both hosts.
abbrev begun : Db
begun = record lab {
  task_hosts =
      record (waiting 7) { state = running; started_at = some 120 }
      ∷ record (waiting 8) { state = running; started_at = some 120 }
      ∷ [];
}

claim-Touches_example :
    Rows (Touches 2) lab.task_hosts (claim clock (to_task lab session) lab).task_hosts
unfolding to_task
claim-Touches_example = claim-Touches clock (to_task lab session) lab

-- Host 7 is running the deployment, and host 8 is free.
claim-claimed_example :
    (claim clock (to_task lab session) lab).task_hosts ≡ map (claimed clock 2 lab) lab.task_hosts
claim-claimed_example = claim-claimed clock session lab sound (refl, (refl, (refl, tt)))

lab_afterwards :
    map (claimed clock 2 lab) lab.task_hosts
    ≡ deploying
      ∷ record (waiting 7) {
        state = failed;
        finished_at = some 130;
        error = some (text "Host was busy with task 1");
      }
      ∷ record (waiting 8) { state = running; started_at = some 130 }
      ∷ []
unfolding claimed get_next least to_task text decimal
lab_afterwards = refl

settle_failed_example :
    (d : Db) × (settle registry clock 2 (some (internal (text "multicast session panicked"))) begun
      ≡ ok d)
    × (any (λ r. of_task 2 r && is_state r.state running) d.task_hosts ≡ false)
settle_failed_example =
    settle_failed registry clock session (internal (text "multicast session panicked")) begun refl
      (refl, (refl, tt))

settle_done_example :
    (d : Db) × (settle registry clock 2 none begun ≡ ok d)
    × (any
          (λ r.
            of_task 2 r
            && (is_state r.state running && not (elem r.host_id (connected_hosts registry))))
          d.task_hosts
        ≡ false)
settle_done_example = settle_done registry clock session begun refl (refl, (refl, tt))

fail_orphans_lem_example : any (is_orphan begun) (fail_orphans 130 begun).task_hosts ≡ false
fail_orphans_lem_example = fail_orphans_lem 130 begun

abbrev quiet : Task → Db → Db × Result (Unit {0})
quiet task db = (db, ok tt)

drain-none_example :
    (d : Db) × (drain registry quiet clock 3 lab ≡ some d) × (get_next_multicast d ≡ none)
drain-none_example =
    drain-none registry quiet clock (λ task db v. v) (λ task db. omega arith) (λ task db e. e) 3 lab
      sound (omega arith)
