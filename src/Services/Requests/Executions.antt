-- ===== src/Services/Requests/Executions.antt =====
-- The operations on executions keep the invariant.
use ferris_cms.Prelude.{
  ℕ, ◌≡◌, refl, Bool, true, false, ◌&&◌, Option, none, some, List, [], ◌∷◌, ◌++◌, is_empty, Text,
  lit, All-append, contains, Bool-cases, inl, inr, if◌then◌else◌,
}
use ferris_cms.Workflow.Model.{OwsDocument, task_names, is_scheduled, is_trigger_event}
use ferris_cms.Workflow.Validation.{validate}
use ferris_cms.Services.Database.{
  internal, RunOptions, Job, Db, Result, ok, err, found, pure, fail, ◌>>=◌, find_row, RunResult,
  not_built, not_compiled, completed, raised, Env,
}
use ferris_cms.Services.Keeps.{
  Anything, Keeps-guarded, Post, Keeps, Keeps-bind, Keeps-lift, Post-holds, find_row-holds,
  update_row-All,
}
use ferris_cms.Services.Workflows.{invalid, workflow_load, view_executions_action}
use ferris_cms.Services.Engine.{
  OwsExecutionStatus, success, failed, cancelled, is_terminal, is_open, execution_id, finished,
  create_execution, execution_row, update_execution, persist_task_runs, record_result,
  run_execution, or_failed, run_job, spawn, start_execution, execute_workflow, execution_cancel,
  execution_retry,
}
use ferris_cms.Services.Triggers.{
  execute_all, dispatch_cms_event, dispatch_media_event, dispatch_user_event, execute_webhook,
  cms_events, triggered, webhook_options, schedule_options, run_scheduled, run_scheduled_workflows,
  count_ok, load_active_workflows, matching_workflows,
}
use ferris_cms.Services.Requests.Invariant.{IsSettled, unfinished, ended, Inv, load-Keeps}

module _ {V : Type 0} (env : Env V) where
  execution-Keeps : (id : ℕ) → Keeps {V = V} Inv IsSettled (execution_row env id)
  unfolding execution_row
  execution-Keeps id s i =
      Keeps-lift Inv IsSettled
        (found (find_row execution_id id s.executions) (lit "execution not found"))
        (λ row e. find_row-holds execution_id IsSettled id s.executions _ row i.settled e) s i

  update-Keeps :
      (id : ℕ) (status : OwsExecutionStatus) (error : Option Text)
      → is_terminal status ≡ true
      → Keeps Inv Anything (update_execution env id status error)
  unfolding update_execution
  update-Keeps id status error h =
      Keeps-bind Inv IsSettled Anything (execution_row env id) _ (execution-Keeps id) λ row p s i. (
        record {
          mirrored = i.mirrored;
          settled =
              update_row-All execution_id IsSettled row.id (finished env status error row)
                s.executions i.settled (ended status _ _ h refl refl refl);
        },
        tt,
      )

  create-Keeps :
      (d : OwsDocument V) (opts : RunOptions V) → Keeps Inv Anything (create_execution env d opts)
  unfolding create_execution
  create-Keeps d opts s i = (
    record {
      mirrored = i.mirrored;
      settled = All-append IsSettled s.executions _ i.settled (unfinished refl refl refl refl, tt);
    },
    tt,
  )

  persist-Keeps :
      (id : ℕ) (names : List Text) (b : Bool)
      → Keeps Inv Anything (persist_task_runs env id names b)
  unfolding persist_task_runs
  persist-Keeps id names b s i = (record { mirrored = i.mirrored; settled = i.settled }, tt)

  result-Keeps : (id : ℕ) (r : RunResult) → Keeps Inv Anything (record_result env id r)
  unfolding record_result is_terminal
  result-Keeps id (not_built e) = λ s i. i
  result-Keeps id (not_compiled e) = λ s i. i
  result-Keeps id (completed order) =
      Keeps-bind Inv Anything Anything (persist_task_runs env id order false)
        (λ _. update_execution env id success none) (persist-Keeps id order false)
        λ u v. update-Keeps id success none refl
  result-Keeps id (raised order e) =
      Keeps-bind Inv Anything Anything (persist_task_runs env id order true)
        (λ _. update_execution env id failed (some e)) (persist-Keeps id order true)
        λ u v. update-Keeps id failed (some e) refl

  run-Keeps :
      (d : OwsDocument V) (id : ℕ) (opts : RunOptions V)
      → Keeps Inv Anything (run_execution env d id opts)
  unfolding run_execution is_terminal
  run-Keeps d id opts = elim (Bool-cases (is_empty (task_names d))) [
    | inl e ↦ rw e (update-Keeps id success none refl)
    | inr e ↦ rw e (result-Keeps id (env.run d opts.input))
  ]

  or_failed-Keeps :
      (id : ℕ) (r : Result Unit × Db V) → Post Inv Anything r → Inv (or_failed env id r).1
  unfolding is_terminal
  or_failed-Keeps id (ok u, s) i = i.0
  or_failed-Keeps id (err e, s) i =
      Post-holds Inv Anything (update_execution env id failed _ s)
        (update-Keeps id failed _ refl s i)

  pub run_job-Inv : (job : Job V) (s : Db V) → Inv s → Inv (run_job env job s)
  unfolding run_job
  run_job-Inv job s i = go env.thread_error
    where
      go :
          (o : Option Text)
          → Inv (elim o as (λ _. Db V) [
            | some _ ↦ s
            | none ↦
                (or_failed env job.exec_id
                  (run_execution env job.workflow job.exec_id job.opts s)).1
          ])
      go none =
          or_failed-Keeps job.exec_id (run_execution env job.workflow job.exec_id job.opts s)
            (run-Keeps job.workflow job.exec_id job.opts s i)
      go (some e) = i

  spawn-Keeps : (job : Job V) → Keeps Inv Anything (spawn env job)
  spawn-Keeps job s i = go env.spawn_error
    where
      go :
          (o : Option Text)
          → Post Inv Anything (elim o as (λ _. Result Unit × Db V) [
            | some e ↦ (err (internal (lit "failed to spawn workflow worker: " ++ e)), s)
            | none ↦ (ok tt, record s { jobs = s.jobs ++ job ∷ [] })
          ])
      go none = (record { mirrored = i.mirrored; settled = i.settled }, tt)
      go (some e) = i

  start-Keeps :
      (d : OwsDocument V) (opts : RunOptions V) → Keeps Inv Anything (start_execution env d opts)
  unfolding start_execution
  start-Keeps d opts = go (validate env.as_str d).valid
    where
      go :
          (b : Bool)
          → Keeps Inv Anything (
              if b
              then (create_execution env d opts >>= λ exec_id.
                  spawn env (record { workflow = d; exec_id = exec_id; opts = opts }) >>= λ _.
                  pure exec_id)
              else fail (invalid (validate env.as_str d).errors))
      go true =
          Keeps-bind Inv Anything Anything (create_execution env d opts) _ (create-Keeps d opts)
            λ exec_id p.
              Keeps-bind Inv Anything Anything
                (spawn env (record { workflow = d; exec_id = exec_id; opts = opts }))
                (λ _. pure exec_id)
                (spawn-Keeps (record { workflow = d; exec_id = exec_id; opts = opts }))
                λ u q s i. (i, tt)
      go false = λ s i. i

  pub execute-Keeps :
      (id : ℕ) (opts : RunOptions V) → Keeps Inv Anything (execute_workflow env id opts)
  unfolding execute_workflow
  execute-Keeps id opts =
      Keeps-bind Inv Anything Anything (workflow_load env id) _ (load-Keeps env id)
        λ d p. start-Keeps d opts

  cancel_row-Keeps :
      (id : ℕ) (b : Bool)
      → Keeps Inv Anything (if b then update_execution env id cancelled none else pure tt)
  unfolding is_terminal
  cancel_row-Keeps id true = update-Keeps id cancelled none refl
  cancel_row-Keeps id false = λ s i. (i, tt)

  pub cancel-Keeps : (id : ℕ) → Keeps Inv Anything (execution_cancel env id)
  unfolding execution_cancel
  cancel-Keeps id = Keeps-guarded Inv env Anything view_executions_action _ λ u.
      Keeps-bind Inv IsSettled Anything (execution_row env id) _ (execution-Keeps id)
        λ row p. cancel_row-Keeps id (is_open row)

  pub retry-Keeps : (id : ℕ) → Keeps Inv Anything (execution_retry env id)
  unfolding execution_retry
  retry-Keeps id = Keeps-guarded Inv env Anything view_executions_action _ λ u.
      Keeps-bind Inv IsSettled Anything (execution_row env id) _ (execution-Keeps id) λ row p.
        Keeps-bind Inv Anything Anything (workflow_load env row.workflow_id) _
          (load-Keeps env row.workflow_id) λ d q. execute-Keeps row.workflow_id _

  execute_all-Inv :
      (opts : RunOptions V) (ds : List (OwsDocument V)) (s : Db V)
      → Inv s
      → Inv (execute_all env opts ds s)
  unfolding execute_all
  execute_all-Inv opts [] s i = i
  execute_all-Inv opts (d ∷ ds) s i =
      execute_all-Inv opts ds (execute_workflow env d.id opts s).1
        (Post-holds Inv Anything (execute_workflow env d.id opts s) (execute-Keeps d.id opts s i))

  pub event-Inv :
      (name uid : Text) (entry : V) (s : Db V)
      → Inv s
      → Inv (dispatch_cms_event env name uid entry s).1
  unfolding dispatch_cms_event
  event-Inv name uid entry s i =
      elim (Bool-cases (is_trigger_event name && contains cms_events name)) [
        | inl e ↦ rw e (
            execute_all-Inv (triggered env (name ++ (lit ":" ++ uid)) entry)
              (matching_workflows env.as_str (load_active_workflows s) name (some uid)) s i)
        | inr e ↦ rw e i
      ]

  pub media-Inv : (file : V) (s : Db V) → Inv s → Inv (dispatch_media_event env file s).1
  unfolding dispatch_media_event
  media-Inv file s i =
      execute_all-Inv (triggered env (lit "media.uploaded") file)
        (matching_workflows env.as_str (load_active_workflows s) (lit "media.uploaded") none) s i

  pub user-Inv : (user : V) (s : Db V) → Inv s → Inv (dispatch_user_event env user s).1
  unfolding dispatch_user_event
  user-Inv user s i =
      execute_all-Inv (triggered env (lit "user.created") user)
        (matching_workflows env.as_str (load_active_workflows s) (lit "user.created") none) s i

  pub webhook-Keeps :
      (id : ℕ) (method path : Text) (body : V)
      → Keeps Inv Anything (execute_webhook env id method path body)
  unfolding execute_webhook
  webhook-Keeps id method path body = execute-Keeps id (webhook_options env method path body)

  count_ok-Inv :
      (r : Result ℕ × Db V) (k : Db V → ℕ × Db V)
      → Post Inv Anything r
      → ((s : Db V) → Inv s → Inv (k s).1)
      → Inv (count_ok env r k).1
  count_ok-Inv (ok _, s) k i h = h s i.0
  count_ok-Inv (err _, s) k i h = h s i

  scheduled-Inv :
      (now : V) (ds : List (OwsDocument V)) (s : Db V) → Inv s → Inv (run_scheduled env now ds s).1
  unfolding run_scheduled
  scheduled-Inv now [] s i = i
  scheduled-Inv now (d ∷ ds) s i = elim (Bool-cases (is_scheduled d)) [
    | inl e ↦ rw e (
        count_ok-Inv (execute_workflow env d.id (schedule_options env now) s)
          (run_scheduled env now ds) (execute-Keeps d.id (schedule_options env now) s i)
          (scheduled-Inv now ds))
    | inr e ↦ rw e (scheduled-Inv now ds s i)
  ]

  pub schedule-Inv : (now : V) (s : Db V) → Inv s → Inv (run_scheduled_workflows env now s).1
  unfolding run_scheduled_workflows
  schedule-Inv now s i = scheduled-Inv now (load_active_workflows s) s i
