-- ===== src/Services/Requests.antt =====
-- The requests that change the database, one at a time, each with its own clock and user, and the
-- databases that a sequence of them reaches. A thread ends at any time after it was spawned.
pub mod Invariant
pub mod Executions
pub mod Reached
use ferris_cms.Prelude.{ℕ, zero, suc, Bool, Option, none, some, List, [], ◌∷◌, get_elem?, Text}
use ferris_cms.Workflow.Model.{OwsDocument}
use ferris_cms.Services.Database.{RunOptions, Job, Db, Env}
use ferris_cms.Services.Workflows.{
  workflow_create, workflow_save, workflow_delete, workflow_set_active, workflow_duplicate,
  workflow_import, workflow_import_bulk,
}
use ferris_cms.Services.Engine.{run_job, execute_workflow, execution_cancel, execution_retry}
use ferris_cms.Services.Triggers.{
  dispatch_cms_event, dispatch_media_event, dispatch_user_event, execute_webhook,
  run_scheduled_workflows,
}

pub data Request (V : Type 0) : Type 0 where
  create : Text → Option Text → Option (OwsDocument V) → Request V
  save : Option ℕ → OwsDocument V → Request V
  delete : ℕ → Request V
  set_active : ℕ → Bool → Request V
  duplicate : ℕ → Option Text → Request V
  import_one : OwsDocument V → Request V
  import_all : List (OwsDocument V) → Request V
  execute : ℕ → RunOptions V → Request V
  cancel retry : ℕ → Request V
  event : Text → Text → V → Request V
  media user : V → Request V
  webhook : ℕ → Text → Text → V → Request V
  schedule : V → Request V
  -- the job at a position runs to its end
  end_job : ℕ → Request V

abbrev pub remove_at : {A : Type 0} → ℕ → List A → List A
remove_at n [] = []
remove_at zero (x ∷ xs) = xs
remove_at (suc n) (x ∷ xs) = x ∷ remove_at n xs

module _ {V : Type 0} (env : Env V) where
  abbrev pub end_of : Option (Job V) → Db V → Db V
  end_of none s = s
  end_of (some job) s = run_job env job s

  unfoldable pub serve : Request V → Db V → Db V
  unfolding workflow_create workflow_save workflow_delete workflow_set_active workflow_duplicate
      workflow_import workflow_import_bulk execute_workflow execution_cancel execution_retry
      dispatch_cms_event dispatch_media_event dispatch_user_event execute_webhook
      run_scheduled_workflows run_job
  serve (create name description def) s = (workflow_create env name description def s).1
  serve (save id def) s = (workflow_save env id def s).1
  serve (delete id) s = (workflow_delete env id s).1
  serve (set_active id active) s = (workflow_set_active env id active s).1
  serve (duplicate id name) s = (workflow_duplicate env id name s).1
  serve (import_one def) s = (workflow_import env def s).1
  serve (import_all defs) s = (workflow_import_bulk env defs s).1
  serve (execute id opts) s = (execute_workflow env id opts s).1
  serve (cancel id) s = (execution_cancel env id s).1
  serve (retry id) s = (execution_retry env id s).1
  serve (event name uid entry) s = (dispatch_cms_event env name uid entry s).1
  serve (media file) s = (dispatch_media_event env file s).1
  serve (user u) s = (dispatch_user_event env u s).1
  serve (webhook id method path body) s = (execute_webhook env id method path body s).1
  serve (schedule now) s = (run_scheduled_workflows env now s).1
  serve (end_job n) s = end_of (get_elem? s.jobs n) (record s { jobs = remove_at n s.jobs })

abbrev pub no_rows : {V : Type 0} → Db V
no_rows = record { workflows = []; executions = []; node_runs = []; jobs = [] }

pub data Reach {V : Type 0} : Db V → Type 0 where
  start : Reach no_rows
  next : (env : Env V) (r : Request V) (s : Db V) → Reach s → Reach (serve env r s)
