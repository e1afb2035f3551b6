-- ===== src/Services/Engine/Ends.antt =====
-- How an execution ends.
use ferris_cms.Prelude.{
  ℕ, ◌≡◌, refl, sym, ap, ◌∙◌, ◌⊎◌, inl, inr, true, false, Option, none, some, List, [], ◌∷◌, ◌++◌,
  is_empty, Text, lit, ◌==◌, ==_iff, arith, Bool-cases, if◌then◌else◌,
}
use ferris_cms.Workflow.Model.{task_names}
use ferris_cms.Services.Database.{
  internal, ExecutionRow, Job, Db, ok, found, Service, pure, after, ◌>>=◌, find_row, update_row,
  RunResult, not_built, not_compiled, completed, raised, Env,
}
use ferris_cms.Services.Workflows.{view_executions_action}
use ferris_cms.Services.Answers.{enforce-allowed, execution_row-found}
use ferris_cms.Services.Engine.{
  OwsExecutionStatus, success, failed, cancelled, as_str, is_open, write_end, error_text,
  execution_id, finished, execution_row, update_execution, persist_task_runs, record_result,
  run_execution, or_failed, run_job, execution_cancel,
}

module _ {A : Type 0} (id_of : A → ℕ) where
  pub find_row-id :
      (id : ℕ) (rows : List A) (r : A) → find_row id_of id rows ≡ some r → id_of r ≡ id
  unfolding find_row
  find_row-id id [] r h = absurd (cc h)
  find_row-id id (x ∷ rows) r h = ground (arith, find_row-id id rows r)

  kept :
      (id : ℕ) (x : A) (rows : List A)
      → (id_of x == id) ≡ false
      → find_row id_of id (x ∷ rows) ≡ find_row id_of id rows
  unfolding find_row
  kept id x rows q = rw q refl

  pub find_row-update_row :
      (id : ℕ) (rows : List A) (r new : A)
      → find_row id_of id rows ≡ some r
      → id_of new ≡ id
      → find_row id_of id (update_row id_of id new rows) ≡ some new
  unfolding find_row update_row
  find_row-update_row id [] r new h e = absurd (cc h)
  find_row-update_row id (x ∷ rows) r new h e = elim (Bool-cases (id_of x == id)) [
    | inl q ↦ rw (q, (==_iff (id_of new) id).1 e) refl
    | inr q ↦ rw q (
        kept id x (update_row id_of id new rows) q
        ∙ find_row-update_row id rows r new (sym (kept id x rows q) ∙ h) e)
  ]

module _ {V : Type 0} (env : Env V) where
  -- the end of an execution, as the runtime's answer says
  abbrev pub answer : RunResult → OwsExecutionStatus × Option Text
  answer (not_built e) =
      (failed, some (error_text (internal (lit "failed to build OWS runtime: " ++ e))))
  answer (not_compiled e) =
      (failed, some (error_text (internal (lit "failed to compile workflow: " ++ e))))
  answer (completed _) = (success, none)
  answer (raised _ e) = (failed, some e)

  abbrev pub outcome : Job V → OwsExecutionStatus × Option Text
  outcome job =
      if is_empty (task_names job.workflow)
      then (success, none)
      else answer (env.run job.workflow job.opts.input)

  abbrev execution_at : ℕ → Db V → Option (ExecutionRow V)
  execution_at id s = find_row execution_id id s.executions

  -- the database after the end of an execution is written
  abbrev ended : ℕ → OwsExecutionStatus → Option Text → ExecutionRow V → Db V → Db V
  ended id status error row s = record s {
    executions = update_row execution_id id (finished env status error row) s.executions;
  }

  update_execution-ended :
      (id : ℕ) (status : OwsExecutionStatus) (error : Option Text) (s : Db V) (row : ExecutionRow V)
      → execution_at id s ≡ some row
      → update_execution env id status error s ≡ (ok tt, ended id status error row s)
  unfolding update_execution execution_row
  update_execution-ended id status error s row h =
      ap (λ o. after (found o (lit "execution not found"), s) (write_end env status error)) h
      ∙ ap (λ k. (ok tt, ended k status error row s))
          (find_row-id execution_id id s.executions row h)

  execution_at-ended :
      (id : ℕ) (status : OwsExecutionStatus) (error : Option Text) (s : Db V) (row : ExecutionRow V)
      → execution_at id s ≡ some row
      → execution_at id (ended id status error row s) ≡ some (finished env status error row)
  execution_at-ended id status error s row h =
      find_row-update_row execution_id id s.executions row (finished env status error row) h
        (find_row-id execution_id id s.executions row h)

  -- the end is written by one of the two calls
  answered :
      (id : ℕ) (r : RunResult) (s : Db V) (row : ExecutionRow V)
      → execution_at id s ≡ some row
      → execution_at id (or_failed env id (record_result env id r s)).1
        ≡ some (finished env (answer r).0 (answer r).1 row)
  unfolding record_result persist_task_runs
  answered id (not_built e) s row h =
      ap (λ r. execution_at id r.1) (update_execution-ended id failed _ s row h)
      ∙ execution_at-ended id failed _ s row h
  answered id (not_compiled e) s row h =
      ap (λ r. execution_at id r.1) (update_execution-ended id failed _ s row h)
      ∙ execution_at-ended id failed _ s row h
  answered id (completed order) s row h =
      let t = (persist_task_runs env id order false s).1 in
      ap (λ r. execution_at id (or_failed env id r).1)
        (update_execution-ended id success none t row h)
      ∙ execution_at-ended id success none t row h
  answered id (raised order e) s row h =
      let t = (persist_task_runs env id order true s).1 in
      ap (λ r. execution_at id (or_failed env id r).1)
        (update_execution-ended id failed (some e) t row h)
      ∙ execution_at-ended id failed (some e) t row h

  ran_out :
      (job : Job V) (s : Db V) (row : ExecutionRow V)
      → execution_at job.exec_id s ≡ some row
      → execution_at job.exec_id
          (or_failed env job.exec_id (run_execution env job.workflow job.exec_id job.opts s)).1
        ≡ some (finished env (outcome job).0 (outcome job).1 row)
  unfolding run_execution
  ran_out job s row h = elim (Bool-cases (is_empty (task_names job.workflow))) [
    | inl e ↦ rw e (
        ap (λ r. execution_at job.exec_id (or_failed env job.exec_id r).1)
          (update_execution-ended job.exec_id success none s row h)
        ∙ execution_at-ended job.exec_id success none s row h)
    | inr e ↦ rw e (answered job.exec_id (env.run job.workflow job.opts.input) s row h)
  ]

  -- A thread that gets its runtime ends the execution that it was spawned for, whatever the runtime
  -- answers: the row gets the status of the answer, `success` or `failed`, its error, and an end.
  pub run_job-ends :
      (job : Job V) (s : Db V) (row : ExecutionRow V)
      → env.thread_error ≡ none
      → find_row execution_id job.exec_id s.executions ≡ some row
      → find_row execution_id job.exec_id (run_job env job s).executions
        ≡ some (finished env (outcome job).0 (outcome job).1 row)
  unfolding run_job
  run_job-ends job s row t h =
      ap
        (λ o. execution_at job.exec_id (elim o as (λ _. Db V) [
          | some _ ↦ s
          | none ↦
              (or_failed env job.exec_id (run_execution env job.workflow job.exec_id job.opts s)).1
        ]))
        t
      ∙ ran_out job s row h

  outcome-status : (job : Job V) → ((outcome job).0 ≡ success) ⊎ ((outcome job).0 ≡ failed)
  outcome-status job = elim (Bool-cases (is_empty (task_names job.workflow))) [
    | inl e ↦ inl (rw e refl)
    | inr e ↦ rw e (go (env.run job.workflow job.opts.input))
  ]
    where
      go : (r : RunResult) → ((answer r).0 ≡ success) ⊎ ((answer r).0 ≡ failed)
      go (not_built e) = inr refl
      go (not_compiled e) = inr refl
      go (completed order) = inl refl
      go (raised order e) = inr refl

module _ {V : Type 0} (env : Env V) where
  cancelled_row :
      (id : ℕ) (s : Db V) (row : ExecutionRow V)
      → env.enforce_action view_executions_action ≡ none
      → find_row execution_id id s.executions ≡ some row
      → is_open row ≡ true
      → find_row execution_id id (execution_cancel env id s).1.executions
        ≡ some (finished env cancelled none row)
  unfolding execution_cancel
  cancelled_row id s row a h o =
      ap (λ r. execution_at env id (after r (λ _. execution_row env id >>= close)).1)
        (enforce-allowed env view_executions_action s a)
      ∙ ap (λ r. execution_at env id (after r close).1) (execution_row-found env id s row h)
      ∙ ap
          (λ b.
            execution_at env id
              ((if b then update_execution env id cancelled none else pure tt) s).1)
          o
      ∙ ap (λ r. execution_at env id r.1) (update_execution-ended env id cancelled none s row h)
      ∙ execution_at-ended env id cancelled none s row h
    where
      close : ExecutionRow V → Service V Unit
      close row = if is_open row then update_execution env id cancelled none else pure tt

-- An execution that is cancelled while its thread runs does not stay cancelled: when the thread ends,
-- the row gets the status `success` or `failed` of the run.
pub execution_cancel-overwritten :
    {V : Type 0} (env env' : Env V) (job : Job V) (s : Db V) (row : ExecutionRow V)
    → env.enforce_action view_executions_action ≡ none
    → env'.thread_error ≡ none
    → find_row execution_id job.exec_id s.executions ≡ some row
    → is_open row ≡ true
    → (row' : ExecutionRow V) × (find_row execution_id job.exec_id
          (run_job env' job (execution_cancel env job.exec_id s).1).executions
        ≡ some row')
      × ((row'.status ≡ as_str success) ⊎ (row'.status ≡ as_str failed))
execution_cancel-overwritten env env' job s row a t h o =
    let row' = finished env cancelled none row in
    (
      finished env' (outcome env' job).0 (outcome env' job).1 row',
      run_job-ends env' job (execution_cancel env job.exec_id s).1 row' t
          (cancelled_row env job.exec_id s row a h o),
      elim (outcome-status env' job) [ inl e ↦ inl (ap as_str e) | inr e ↦ inr (ap as_str e) ],
    )
