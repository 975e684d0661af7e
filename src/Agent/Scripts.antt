-- ===== src/Agent/Scripts.antt =====
-- The scripts that an agent runs after a restore (crates/api/agent/src/scripts.rs). `proxy` and
-- `variables` are the server's configuration; a script's output arrives in a stream, whose
-- recording is not modelled.
use imaged.Base.{ℕ, suc, Bool, Option, List, [], ◌∷◌, ◌++◌, ◌==◌, any}
use imaged.Base.Int.{ℤ}
use imaged.Text.{Text, text, decimal}
use imaged.Error.{Result, ok, err, invalid_argument, ◌>>=◌, ◌>>◌, ensure}
use imaged.Task.{running, restores, hosts_in}
use imaged.Image.{Image, ImagePartition, ready, is_status}
use imaged.Script.{InputValues}
use imaged.Store.{Db}
use imaged.Store.Hosts.{Host, get_by_mac}
use imaged.Store.Images
use imaged.Store.Scripts.{finish_script_run}
use imaged.Store.Scripts.Listing.{get_inputs}
use imaged.Store.Catalog.{ImageScript}
use imaged.Store.Catalog.Links.{get_for_image, script_roots}
use imaged.Store.Catalog.Inputs.{script_inputs}
use imaged.Agent.Started.{not_ready}
use imaged.Agent.Transfers.{get_restore_task_and_verify}

pub record PostInstallScript : Type 0 where
  pub position : ℕ
  pub name : Text
  pub body : Text
  pub root_partition : ℕ
  pub inputs : InputValues

pub record PostInstall : Type 0 where
  pub proxy : Option Text
  pub variables : InputValues
  pub scripts : List PostInstallScript

pub record ImageLayout : Type 0 where
  pub sector_size : ℕ
  pub partitions : List ImagePartition

pub record RestoreRun : Type 0 where
  pub image_id : ℕ
  pub host_id : ℕ

module _ (is_number : Text → Bool) where
  -- The scripts with their roots, from a position on.
  unfoldable pub planned_from :
      InputValues → ℕ → List ImageScript → List ℕ → Result (List PostInstallScript)
  planned_from values position [] roots = ok []
  planned_from values position (s ∷ scripts) [] = ok []
  planned_from values position (s ∷ scripts) (root ∷ roots) =
      script_inputs is_number s.script values >>= λ inputs.
      planned_from values (suc position) scripts roots >>= λ rest. ok (
        record {
          position = position;
          name = s.script.name;
          body = s.script.body;
          root_partition = root;
          inputs = inputs;
        }
        ∷ rest)

  unfoldable pub planned_scripts : ℕ → ℕ → Image → Db → Result (List PostInstallScript)
  unfolding planned_from
  planned_scripts task_id host_id image db =
      script_roots image (get_for_image image.id db) >>= λ roots.
      planned_from (get_inputs task_id host_id db) 0 (get_for_image image.id db) roots

module _ (quoted : Text → Text) where
  unfoldable pub running_restore_task : Text → ℕ → Db → Result RestoreRun
  running_restore_task mac task_id db =
      get_restore_task_and_verify quoted mac task_id restores db >>= λ (t, image_id).
      get_by_mac quoted mac db >>= λ (host : Host).
      ensure (any (λ id. id == host.id) (hosts_in running t)) (
        invalid_argument
          (text "Task " ++ (decimal task_id ++ text " has not started on this host")))
      >> ok (record { image_id = image_id; host_id = host.id })

  unfoldable pub post_install :
      (Text → Bool) → Option Text → InputValues → Text → ℕ → Db → Result PostInstall
  unfolding running_restore_task planned_scripts
  post_install is_number proxy variables mac task_id db =
      running_restore_task mac task_id db >>= λ (run : RestoreRun).
      Images.get run.image_id db >>= λ image.
      planned_scripts is_number task_id run.host_id image db >>= λ scripts.
      ok (record { proxy = proxy; variables = variables; scripts = scripts })

  -- `download_partitions` (crates/api/agent/src/deploy.rs): the scripts must be fit to run.
  unfoldable pub download_partitions : (Text → Bool) → Text → ℕ → Db → Result ImageLayout
  unfolding planned_scripts
  download_partitions is_number mac task_id db =
      get_restore_task_and_verify quoted mac task_id restores db >>= λ (t, image_id).
      Images.get image_id db >>= λ (image : Image).
      ensure (is_status image.status ready) (not_ready image_id)
      >> (get_by_mac quoted mac db >>= λ (host : Host).
          planned_scripts is_number t.id host.id image db >>= λ scripts.
          ok (record { sector_size = image.sector_size; partitions = image.partitions }))

  abbrev pub finished_by : ℕ → ℕ → ℕ → Option ℤ → Result RestoreRun → Db → Result (Unit {0}) × Db
  finished_by now task_id position exit_code (err e) db = (err e, db)
  finished_by now task_id position exit_code (ok run) db =
      finish_script_run now task_id run.host_id position exit_code db

  unfoldable pub finish_script : ℕ → Text → ℕ → ℕ → Option ℤ → Db → Result (Unit {0}) × Db
  unfolding running_restore_task
  finish_script now mac task_id position exit_code db =
      finished_by now task_id position exit_code (running_restore_task mac task_id db) db
