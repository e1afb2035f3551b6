-- ===== src/Services/Engine/Status.antt =====
-- The stored names of the statuses.
use ferris_cms.Prelude.{◌≡◌, refl}
use ferris_cms.Services.Engine.{
  OwsExecutionStatus, running, success, failed, waiting, cancelled, OwsTaskRunStatus, not_executed,
  task_running, task_success, task_failed, skipped, task_waiting, as_str, task_as_str,
  parse_execution_status, parse_node_status,
}

execution_round : (status : OwsExecutionStatus) → parse_execution_status (as_str status) ≡ status
unfolding parse_execution_status as_str
execution_round running = refl
execution_round success = refl
execution_round failed = refl
execution_round waiting = refl
execution_round cancelled = refl

task_round : (status : OwsTaskRunStatus) → parse_node_status (task_as_str status) ≡ status
unfolding parse_node_status task_as_str
task_round not_executed = refl
task_round task_running = refl
task_round task_success = refl
task_round task_failed = refl
task_round skipped = refl
task_round task_waiting = refl

-- Each status of an execution and each status of a task run is read back from its stored name.
pub parse_execution_status-as_str :
    ((status : OwsExecutionStatus) → parse_execution_status (as_str status) ≡ status)
    × ((status : OwsTaskRunStatus) → parse_node_status (task_as_str status) ≡ status)
parse_execution_status-as_str = (execution_round, task_round)
