-- ===== src/Services/Engine.antt =====
-- crates/services/src/workflow/engine.rs: the executions of a workflow. A spawned thread is a job of
-- the database's state until it runs. Each operation reads the clock once, `env.now`.
pub mod Ends
pub mod Status
use ferris_cms.Prelude.{
  ℕ, ◌+◌, Bool, true, false, not, ◌&&◌, ◌||◌, Option, none, some, List, [], ◌∷◌, ◌++◌, is_empty,
  map, Text, lit, text_eq, Assoc, ◌==◌, if◌then◌else◌,
}
use ferris_cms.Prelude.Int.{ℤ}
use ferris_cms.Workflow.Model.{
  TaskDefinition, call, do_, emit, for, fork, listen, raise, run, set, switch, try, wait,
  OwsDocument, task_entries, task_names,
}
use ferris_cms.Workflow.Validation.{validate}
use ferris_cms.Services.Database.{
  ServiceError, validation, not_found, conflict, forbidden, unauthorized, db, store, internal, rbac,
  ExecutionRow, NodeRunRow, RunOptions, Job, Db, Result, ok, err, found, Service, pure, fail, lift,
  after, ◌>>=◌, find_row, update_row, filter, RunResult, not_built, not_compiled, completed, raised,
  Env,
}
use ferris_cms.Services.Workflows.{invalid, enforce, workflow_load, view_executions_action}

pub data OwsExecutionStatus : Type 0 where
  running success failed waiting cancelled : OwsExecutionStatus

pub data OwsTaskRunStatus : Type 0 where
  not_executed task_running task_success task_failed skipped task_waiting : OwsTaskRunStatus

unfoldable pub as_str : OwsExecutionStatus → Text
as_str running = lit "running"
as_str success = lit "success"
as_str failed = lit "failed"
as_str waiting = lit "waiting"
as_str cancelled = lit "cancelled"

unfoldable pub is_terminal : OwsExecutionStatus → Bool
is_terminal success = true
is_terminal failed = true
is_terminal cancelled = true
is_terminal _ = false

unfoldable pub task_as_str : OwsTaskRunStatus → Text
task_as_str not_executed = lit "notExecuted"
task_as_str task_running = lit "running"
task_as_str task_success = lit "success"
task_as_str task_failed = lit "failed"
task_as_str skipped = lit "skipped"
task_as_str task_waiting = lit "waiting"

unfoldable pub parse_execution_status : Text → OwsExecutionStatus
unfolding text_eq
parse_execution_status s =
    if text_eq s (lit "success")
    then success
    else if text_eq s (lit "failed")
    then failed
    else if text_eq s (lit "waiting")
    then waiting
    else if text_eq s (lit "cancelled")
    then cancelled
    else running

unfoldable pub parse_node_status : Text → OwsTaskRunStatus
unfolding text_eq
parse_node_status s =
    if text_eq s (lit "running")
    then task_running
    else if text_eq s (lit "success")
    then task_success
    else if text_eq s (lit "failed")
    then task_failed
    else if text_eq s (lit "skipped")
    then skipped
    else if text_eq s (lit "waiting")
    then task_waiting
    else not_executed

unfoldable pub task_type_label : TaskDefinition → Text
task_type_label (call _ _) = lit "call"
task_type_label (do_ _) = lit "do"
task_type_label (emit _) = lit "emit"
task_type_label (for _) = lit "for"
task_type_label (fork _) = lit "fork"
task_type_label (listen _) = lit "listen"
task_type_label (raise _) = lit "raise"
task_type_label (run _) = lit "run"
task_type_label (set _) = lit "set"
task_type_label (switch _ _) = lit "switch"
task_type_label (try _) = lit "try"
task_type_label (wait _) = lit "wait"

-- `ServiceError::to_string`
abbrev pub error_text : ServiceError → Text
error_text (validation _) = lit "validation error"
error_text (not_found m) = lit "not found: " ++ m
error_text (conflict m) = lit "conflict: " ++ m
error_text forbidden = lit "forbidden"
error_text unauthorized = lit "unauthorized"
error_text (db m) = lit "database error: " ++ m
error_text (store m) = lit "store error: " ++ m
error_text (internal m) = lit "internal error: " ++ m
error_text (rbac m) = lit "rbac error: " ++ m

module _ {V : Type 0} where
  abbrev pub execution_id : ExecutionRow V → ℕ
  execution_id e = e.id

  abbrev pub run_id : NodeRunRow V → ℕ
  run_id r = r.id

  -- `find().filter(ExecutionId.eq(exec_id)).filter(NodeId.eq(name)).one(..)`
  unfoldable pub find_run : ℕ → Text → List (NodeRunRow V) → Option (NodeRunRow V)
  unfolding text_eq
  find_run exec_id name [] = none
  find_run exec_id name (r ∷ rs) =
      let rest = find_run exec_id name rs in
      if r.execution_id == exec_id && text_eq r.node_id name then some r else rest

  -- the row was active or waiting
  abbrev pub is_open : ExecutionRow V → Bool
  is_open row = text_eq row.status (as_str running) || text_eq row.status (as_str waiting)

module _ {V : Type 0} (env : Env V) where
  abbrev pub new_execution : OwsDocument V → RunOptions V → ℕ → ExecutionRow V
  new_execution workflow opts id = record {
    id = id;
    workflow_id = workflow.id;
    status = as_str running;
    mode = opts.mode;
    trigger = opts.trigger;
    started_at = env.now;
    finished_at = none;
    duration_ms = none;
    error = none;
    data_json = some opts.input;
  }

  abbrev placeholder : ℕ → ℕ → Text → TaskDefinition → ℕ → NodeRunRow V
  placeholder exec_id i name task id = record {
    id = id;
    execution_id = exec_id;
    node_id = name;
    node_name = name;
    node_type = task_type_label task;
    status = task_as_str not_executed;
    started_at = none;
    finished_at = none;
    duration_ms = none;
    input_json = none;
    output_json = none;
    error = none;
    attempts = 0;
    order = i;
  }

  -- the loop over the tasks
  unfoldable pub add_placeholders :
      ℕ → ℕ → Assoc TaskDefinition → List (NodeRunRow V) → List (NodeRunRow V)
  unfolding task_type_label task_as_str
  add_placeholders exec_id i [] rows = rows
  add_placeholders exec_id i ((name, task) ∷ tasks) rows =
      add_placeholders exec_id (i + 1) tasks
        (rows ++ placeholder exec_id i name task (env.new_id (map run_id rows)) ∷ [])

  abbrev pub free_execution_id : Db V → ℕ
  free_execution_id s = env.new_id (map execution_id s.executions)

  unfoldable pub create_execution : OwsDocument V → RunOptions V → Service V ℕ
  unfolding as_str add_placeholders task_entries
  create_execution workflow opts s = (
    ok (free_execution_id s),
    record s {
      executions = s.executions ++ new_execution workflow opts (free_execution_id s) ∷ [];
      node_runs =
          add_placeholders (free_execution_id s) 0 (task_entries workflow.definition) s.node_runs;
    },
  )

  abbrev pub finished : OwsExecutionStatus → Option Text → ExecutionRow V → ExecutionRow V
  finished status error row = record row {
    status = as_str status;
    finished_at = some env.now;
    duration_ms = some (env.num_milliseconds env.now row.started_at);
    error = error;
  }

  -- `find_by_id(exec_id).one(&ctx.db)`
  unfoldable pub execution_row : ℕ → Service V (ExecutionRow V)
  unfolding find_row
  execution_row exec_id s =
      (found (find_row execution_id exec_id s.executions) (lit "execution not found"), s)

  abbrev pub write_end : OwsExecutionStatus → Option Text → ExecutionRow V → Service V Unit
  write_end status error row s = (
    ok tt,
    record s {
      executions = update_row execution_id row.id (finished status error row) s.executions;
    },
  )

  unfoldable pub update_execution : ℕ → OwsExecutionStatus → Option Text → Service V Unit
  unfolding execution_row update_row as_str
  update_execution exec_id status error =
      execution_row exec_id >>= λ row. write_end status error row

  abbrev ran : OwsTaskRunStatus → NodeRunRow V → NodeRunRow V
  ran status row = record row {
    status = task_as_str status;
    started_at = some env.now;
    finished_at = some env.now;
    output_json = some env.executed;
    attempts = 1;
  }

  abbrev mark_run :
      OwsTaskRunStatus → Option (NodeRunRow V) → List (NodeRunRow V) → List (NodeRunRow V)
  mark_run status none rows = rows
  mark_run status (some row) rows = update_row run_id row.id (ran status row) rows

  -- the loop over the executed tasks; the last one has failed where the run did
  unfoldable pub mark_runs : ℕ → Bool → List Text → List (NodeRunRow V) → List (NodeRunRow V)
  unfolding find_run update_row task_as_str
  mark_runs exec_id run_failed [] rows = rows
  mark_runs exec_id run_failed (name ∷ names) rows = mark_runs exec_id run_failed names (
      mark_run (if run_failed && is_empty names then task_failed else task_success)
        (find_run exec_id name rows) rows)

  unfoldable pub persist_task_runs : ℕ → List Text → Bool → Service V Unit
  unfolding mark_runs
  persist_task_runs exec_id executed run_failed s =
      (ok tt, record s { node_runs = mark_runs exec_id run_failed executed s.node_runs })

  -- what follows the runtime's answer
  unfoldable pub record_result : ℕ → RunResult → Service V Unit
  unfolding persist_task_runs update_execution
  record_result exec_id (not_built e) = fail (internal (lit "failed to build OWS runtime: " ++ e))
  record_result exec_id (not_compiled e) = fail (internal (lit "failed to compile workflow: " ++ e))
  record_result exec_id (completed order) =
      persist_task_runs exec_id order false >>= λ _. update_execution exec_id success none
  record_result exec_id (raised order e) =
      persist_task_runs exec_id order true >>= λ _. update_execution exec_id failed (some e)

  unfoldable pub run_execution : OwsDocument V → ℕ → RunOptions V → Service V Unit
  unfolding record_result update_execution task_names
  run_execution workflow exec_id opts =
      if is_empty (task_names workflow)
      then update_execution exec_id success none
      else record_result exec_id (env.run workflow opts.input)

  abbrev pub or_failed : ℕ → Result Unit × Db V → Result Unit × Db V
  or_failed exec_id (ok _, s) = (ok tt, s)
  or_failed exec_id (err e, s) = update_execution exec_id failed (some (error_text e)) s

  -- what the spawned thread does; its result is only logged
  unfoldable pub run_job : Job V → Db V → Db V
  unfolding run_execution update_execution
  run_job job s = elim env.thread_error [
    | some _ ↦ s
    | none ↦ (or_failed job.exec_id (run_execution job.workflow job.exec_id job.opts s)).1
  ]

  abbrev pub spawn : Job V → Service V Unit
  spawn job s = elim env.spawn_error [
    | some e ↦ (err (internal (lit "failed to spawn workflow worker: " ++ e)), s)
    | none ↦ (ok tt, record s { jobs = s.jobs ++ job ∷ [] })
  ]

  -- `execute_workflow`, of a document that was loaded
  unfoldable pub start_execution : OwsDocument V → RunOptions V → Service V ℕ
  unfolding create_execution validate
  start_execution workflow opts =
      let validation = validate env.as_str workflow in
      if validation.valid
      then (create_execution workflow opts >>= λ exec_id.
          spawn (record { workflow = workflow; exec_id = exec_id; opts = opts }) >>= λ _.
          pure exec_id)
      else fail (invalid validation.errors)

  unfoldable pub execute_workflow : ℕ → RunOptions V → Service V ℕ
  unfolding workflow_load start_execution
  execute_workflow workflow_id opts =
      workflow_load env workflow_id >>= λ workflow. start_execution workflow opts

  unfoldable pub execution_cancel : ℕ → Service V Unit
  unfolding enforce execution_row update_execution text_eq as_str
  execution_cancel exec_id = enforce env view_executions_action >>= λ _.
      execution_row exec_id >>= λ row.
      if is_open row then update_execution exec_id cancelled none else pure tt

  abbrev pub input_of : Option V → V
  input_of none = env.no_input
  input_of (some v) = v

  unfoldable pub execution_retry : ℕ → Service V ℕ
  unfolding enforce execution_row workflow_load execute_workflow
  execution_retry exec_id = enforce env view_executions_action >>= λ _.
      execution_row exec_id >>= λ row. workflow_load env row.workflow_id >>= λ _.
      execute_workflow row.workflow_id (record {
        mode = lit "retry";
        trigger = row.trigger;
        input = input_of row.data_json;
        max_attempts = 3;
      })
