-- ===== src/Services/Requests/Reached.antt =====
-- What holds of every database that a sequence of requests reaches.
use ferris_cms.Prelude.{Option, none, some, All, get_elem?}
use ferris_cms.Services.Database.{Job, Db, Env}
use ferris_cms.Services.Keeps.{Anything, Post-holds}
use ferris_cms.Services.Workflows.{
  workflow_create, workflow_save, workflow_delete, workflow_set_active, workflow_duplicate,
  workflow_import, workflow_import_bulk,
}
use ferris_cms.Services.Engine.{execute_workflow, execution_cancel, execution_retry}
use ferris_cms.Services.Triggers.{execute_webhook}
use ferris_cms.Services.Requests.{
  Request, create, save, delete, set_active, duplicate, import_one, import_all, execute, cancel,
  retry, event, media, user, webhook, schedule, end_job, remove_at, end_of, serve, Reach, start,
  next,
}
use ferris_cms.Services.Requests.Invariant.{
  IsMirrored, IsSettled, Inv, create-Keeps, save-Keeps, delete-Keeps, set_active-Keeps,
  duplicate-Keeps, import-Keeps, import_bulk-Keeps,
}
use ferris_cms.Services.Requests.Executions.{
  run_job-Inv, execute-Keeps, cancel-Keeps, retry-Keeps, event-Inv, media-Inv, user-Inv,
  webhook-Keeps, schedule-Inv,
}

module _ {V : Type 0} (env : Env V) where
  end_of-Inv : (o : Option (Job V)) (s : Db V) → Inv s → Inv (end_of env o s)
  end_of-Inv none s i = i
  end_of-Inv (some job) s i = run_job-Inv env job s i

  serve-Inv : (r : Request V) (s : Db V) → Inv s → Inv (serve env r s)
  unfolding serve
  serve-Inv (create name description def) s i =
      Post-holds Inv Anything (workflow_create env name description def s)
        (create-Keeps env name description def s i)
  serve-Inv (save id def) s i =
      Post-holds Inv Anything (workflow_save env id def s) (save-Keeps env id def s i)
  serve-Inv (delete id) s i =
      Post-holds Inv Anything (workflow_delete env id s) (delete-Keeps env id s i)
  serve-Inv (set_active id active) s i =
      Post-holds Inv Anything (workflow_set_active env id active s)
        (set_active-Keeps env id active s i)
  serve-Inv (duplicate id name) s i =
      Post-holds Inv Anything (workflow_duplicate env id name s) (duplicate-Keeps env id name s i)
  serve-Inv (import_one def) s i =
      Post-holds Inv Anything (workflow_import env def s) (import-Keeps env def s i)
  serve-Inv (import_all defs) s i =
      Post-holds Inv Anything (workflow_import_bulk env defs s) (import_bulk-Keeps env defs s i)
  serve-Inv (execute id opts) s i =
      Post-holds Inv Anything (execute_workflow env id opts s) (execute-Keeps env id opts s i)
  serve-Inv (cancel id) s i =
      Post-holds Inv Anything (execution_cancel env id s) (cancel-Keeps env id s i)
  serve-Inv (retry id) s i =
      Post-holds Inv Anything (execution_retry env id s) (retry-Keeps env id s i)
  serve-Inv (event name uid entry) s i = event-Inv env name uid entry s i
  serve-Inv (media file) s i = media-Inv env file s i
  serve-Inv (user u) s i = user-Inv env u s i
  serve-Inv (webhook id method path body) s i =
      Post-holds Inv Anything (execute_webhook env id method path body s)
        (webhook-Keeps env id method path body s i)
  serve-Inv (schedule now) s i = schedule-Inv env now s i
  serve-Inv (end_job n) s i =
      end_of-Inv (get_elem? s.jobs n) (record s { jobs = remove_at n s.jobs })
        (record { mirrored = i.mirrored; settled = i.settled })

-- In every database that requests and thread ends reach from one without rows: where the column
-- `definition_json` of a workflow holds a document, the name, the description, the version and the
-- flag `active` of the row are those of the document, and the id of the document is 0 or that of
-- the row; and each execution is running, with no end, duration or error, or has one of the terminal
-- statuses and both an end and a duration. Of the times in a document and its row nothing is stated.
pub Reach-Inv :
    {V : Type 0} {s : Db V} → Reach s → All IsMirrored s.workflows × All IsSettled s.executions
Reach-Inv r = let i = reached r in (i.mirrored, i.settled)
  where
    reached : {V : Type 0} {s : Db V} → Reach s → Inv s
    reached start = record { mirrored = tt; settled = tt }
    reached (next env r s h) = serve-Inv env r s (reached h)
