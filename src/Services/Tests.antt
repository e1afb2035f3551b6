-- ===== src/Services/Tests.antt =====
-- Runs of the workflow services, and the instances of their theorems. A JSON value is its text; the
-- database gives the ids in order, and every action is allowed.
use ferris_cms.Prelude.{
  ℕ, ◌+◌, ◌≡◌, refl, ◌⊎◌, true, false, none, some, List, [], ◌∷◌, length, leb, Text, lit, text_eq,
  arith, All, if◌then◌else◌,
}
use ferris_cms.Prelude.Int.{pos}
use ferris_cms.Workflow.Model.{
  TaskDefinition, call, OwsDocument, is_known, is_trigger_event, task_entries, task_names,
}
use ferris_cms.Workflow.Graph.{
  referenced_tasks, execution_sequence, follow, next_task, find_task, by_name,
}
use ferris_cms.Workflow.Validation.{
  validate, empty_issues, entry_issues, reference_issues, event_issues, event_type,
  schedule_filters, cycle_issues,
}
use ferris_cms.Services.Database.{
  WorkflowRow, ExecutionRow, RunOptions, Job, Db, err, not_found, find_row, completed, raised, Env,
}
use ferris_cms.Services.Workflows.{row_id, workflow_create, workflow_set_active, workflow_save}
use ferris_cms.Services.Workflows.Activated.{workflow_set_active-valid}
use ferris_cms.Services.Workflows.Saved.{workflow_save-unchecked}
use ferris_cms.Services.Engine.{
  execution_id, as_str, success, failed, finished, run_job, execute_workflow, execution_cancel,
  execution_retry,
}
use ferris_cms.Services.Engine.Ends.{run_job-ends, execution_cancel-overwritten}
use ferris_cms.Services.Triggers.{dispatch_cms_event}
use ferris_cms.Services.Triggers.Unsaved.{Made, dispatch_cms_event-Made}
use ferris_cms.Services.Requests.{create, execute, end_job, serve, no_rows, start, next}
use ferris_cms.Services.Requests.Invariant.{IsMirrored, IsSettled}
use ferris_cms.Services.Requests.Reached.{Reach-Inv}

abbrev top : List ℕ → ℕ
top [] = 0
top (n ∷ ns) = let m = top ns in if leb m n then n else m

abbrev env : Env Text
env = record {
  now = 7;
  new_id = λ ids. top ids + 1;
  num_milliseconds = λ a b. pos 0;
  enforce_action = λ action. none;
  user = none;
  as_str = λ t. some t;
  no_input = lit "{}";
  executed = lit "executed";
  run = λ d input. completed (lit "t" ∷ []);
  spawn_error = none;
  thread_error = none;
}

abbrev failing : Env Text
failing = record env { run = λ d input. raised (lit "t" ∷ []) (lit "boom") }

abbrev tasks : List (List (Text × TaskDefinition))
tasks = ((lit "t", call (record { then_to = none }) (lit "data.json")) ∷ []) ∷ []

-- one task, started by created posts
abbrev document : OwsDocument Text
document = record {
  id = 0;
  active = false;
  version = 1;
  created_at = 0;
  updated_at = 0;
  definition = record {
    name = lit "w";
    title = none;
    summary = none;
    tags = none;
    entries = tasks;
    schedule = some (record {
      every = none;
      cron = none;
      after = none;
      on = some (record {
        all = none;
        any = none;
        one = some (record {
          with = some ((lit "type", lit "content.created") ∷ (lit "contentType", lit "post") ∷ []);
        });
      });
    });
  };
}

abbrev options : RunOptions Text
options = record { mode = lit "manual"; trigger = lit "manual"; input = lit "{}"; max_attempts = 3 }

abbrev created : Db Text
created = (workflow_create env (lit "w") none (some document) no_rows).1

abbrev activated : Db Text
activated = (workflow_set_active env 1 true created).1

-- the event matches the workflow, and starts nothing
event_run :
    dispatch_cms_event env (lit "content.created") (lit "post") (lit "{}") activated
    ≡ (1, activated)
unfolding dispatch_cms_event workflow_create workflow_set_active empty_issues task_names
    entry_issues is_known reference_issues referenced_tasks event_issues event_type cycle_issues
    execution_sequence follow next_task find_task by_name
event_run = refl

-- after an update it starts an execution
saved_event_run :
    length
      (dispatch_cms_event env
        (lit "content.created")
        (lit "post")
        (lit "{}")
        (workflow_save env (some 1) (record document { active = true }) created).1).1.executions
    ≡ 1
unfolding dispatch_cms_event workflow_create workflow_save empty_issues task_names entry_issues
    is_known reference_issues referenced_tasks event_issues event_type cycle_issues
    execution_sequence follow next_task find_task by_name
saved_event_run = refl

abbrev started : Db Text
started = (execute_workflow env 1 options created).1

-- the execution of a workflow that was never updated is recorded under the workflow zero, and cannot
-- be run again
retry_run : (execution_retry env 1 started).0 ≡ err (not_found (lit "workflow not found"))
unfolding workflow_create execute_workflow execution_retry schedule_filters is_trigger_event
    empty_issues task_names entry_issues is_known reference_issues referenced_tasks event_issues
    event_type cycle_issues execution_sequence follow next_task find_task by_name
retry_run = refl

abbrev job : Job Text
job = record { workflow = document; exec_id = 1; opts = options }

abbrev row : ExecutionRow Text
row = record {
  id = 1;
  workflow_id = 0;
  status = lit "running";
  mode = lit "manual";
  trigger = lit "manual";
  started_at = 7;
  finished_at = none;
  duration_ms = none;
  error = none;
  data_json = some (lit "{}");
}

abbrev open_db : Db Text
open_db = record { workflows = []; executions = row ∷ []; node_runs = []; jobs = job ∷ [] }

run_job-ends_example :
    find_row execution_id 1 (run_job failing job open_db).executions
    ≡ some (finished failing failed (some (lit "boom")) row)
unfolding find_row task_names
run_job-ends_example = run_job-ends failing job open_db row refl refl

execution_cancel-overwritten_example :
    (row' : ExecutionRow Text) × (find_row execution_id 1
        (run_job env job (execution_cancel env 1 open_db).1).executions
      ≡ some row')
    × ((row'.status ≡ as_str success) ⊎ (row'.status ≡ as_str failed))
unfolding find_row text_eq as_str
execution_cancel-overwritten_example =
    execution_cancel-overwritten env env job open_db row refl refl refl refl

Reach-Inv_example :
    All IsMirrored
      (serve env (end_job 0) (
        serve env
          (execute 1 options)
          (serve env (create (lit "w") none (some document)) no_rows))).workflows
    × All IsSettled
        (serve env (end_job 0) (
          serve env
            (execute 1 options)
            (serve env (create (lit "w") none (some document)) no_rows))).executions
Reach-Inv_example = Reach-Inv (
    next env (end_job 0) _
      (next env (execute 1 options) _ (next env (create (lit "w") none (some document)) _ start)))

dispatch_cms_event-Made_example :
    (dispatch_cms_event env (lit "content.created") (lit "post") (lit "{}") activated).1 ≡ activated
dispatch_cms_event-Made_example =
    dispatch_cms_event-Made env (lit "content.created") (lit "post") (lit "{}") activated (
      Made.set_active env 1 true created (
        Made.create env (lit "w") none (some document) no_rows (λ ids. λ e. omega (arith, e))
          Made.start))

abbrev active_document : OwsDocument Text
active_document = record document { active = true; created_at = 7; updated_at = 7 }

workflow_set_active-valid_example :
    ((validate env.as_str active_document).valid ≡ true) × (active_document.active ≡ true)
unfolding workflow_create workflow_set_active task_entries schedule_filters is_trigger_event
    empty_issues task_names entry_issues is_known reference_issues referenced_tasks event_issues
    event_type cycle_issues execution_sequence follow next_task find_task by_name
workflow_set_active-valid_example =
    workflow_set_active-valid env 1 active_document created activated refl

abbrev stored_row : WorkflowRow Text
stored_row = record {
  id = 1;
  name = lit "w";
  description = none;
  version = 1;
  active = false;
  definition_json = some (record document { created_at = 7; updated_at = 7 });
  created_at = 7;
  updated_at = 7;
  created_by = none;
  updated_by = none;
}

workflow_save-unchecked_example :
    (new : WorkflowRow Text) × (find_row row_id 1
        (workflow_save env (some 1) (record document { active = true }) created).1.workflows
      ≡ some new)
    × (new.version ≡ 2)
    × (new.active ≡ true)
unfolding workflow_create find_row
workflow_save-unchecked_example =
    workflow_save-unchecked env 1 (record document { active = true }) created stored_row refl refl
