-- ===== src/Services/Workflows/Saved.antt =====
-- What an update of a workflow writes.
use ferris_cms.Prelude.{ℕ, ◌+◌, ◌≡◌, refl, ap, ◌∙◌, none, some}
use ferris_cms.Workflow.Model.{OwsDocument}
use ferris_cms.Services.Database.{
  WorkflowRow, Db, Service, pure, lift, after, ◌>>=◌, find_row, update_row, Env,
}
use ferris_cms.Services.Answers.{enforce-allowed, workflow_row-found}
use ferris_cms.Services.Engine.Ends.{find_row-id, find_row-update_row}
use ferris_cms.Services.Workflows.{
  row_id, model_to_workflow, workflow_row, update_workflow, saved_document, saved_row,
  workflow_save, update_action,
}

module _ {V : Type 0} (env : Env V) where
  -- An allowed update of a stored workflow raises its version by one and makes it active exactly if
  -- the given document says so, whether or not that document has issues.
  pub workflow_save-unchecked :
      (id : ℕ) (def : OwsDocument V) (s : Db V) (row : WorkflowRow V)
      → env.enforce_action update_action ≡ none
      → find_row row_id id s.workflows ≡ some row
      → (new : WorkflowRow V) × (find_row row_id id (workflow_save env (some id) def s).1.workflows
          ≡ some new)
        × (new.version ≡ row.version + 1)
        × (new.active ≡ def.active)
  unfolding workflow_save update_workflow model_to_workflow
  workflow_save-unchecked id def s row a h =
      let new = saved_row env (saved_document env id (row.version + 1) def) row in
      let same = find_row-id row_id id s.workflows row h in
      (
        new,
        ap
              (λ r.
                find_row row_id id
                  (after (after r (λ _. workflow_row env id >>= write)) answer).1.workflows)
              (enforce-allowed env update_action s a)
            ∙ ap (λ r. find_row row_id id (after (after r write) answer).1.workflows)
                (workflow_row-found env id s row h)
            ∙ ap (λ k. find_row row_id id (update_row row_id k new s.workflows)) same
            ∙ find_row-update_row row_id id s.workflows row new h same,
        refl,
        refl,
      )
    where
      write : WorkflowRow V → Service V (WorkflowRow V)
      write existing =
          update_workflow env
            (saved_row env (saved_document env id (existing.version + 1) def) existing)

      answer : WorkflowRow V → Service V (OwsDocument V)
      answer row = lift (model_to_workflow row) >>= λ saved. pure (record saved { id = row.id })
