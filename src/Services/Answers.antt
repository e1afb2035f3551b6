-- ===== src/Services/Answers.antt =====
-- What the reads of a service answer.
use ferris_cms.Prelude.{ℕ, ◌≡◌, ap, none, some, Text, lit}
use ferris_cms.Services.Database.{
  not_found, WorkflowRow, ExecutionRow, Db, Result, ok, err, found, find_row, Env,
}
use ferris_cms.Services.Workflows.{row_id, enforce, workflow_row}
use ferris_cms.Services.Engine.{execution_id, execution_row}

module _ {V : Type 0} (env : Env V) where
  pub enforce-allowed :
      (action : Text) (s : Db V)
      → env.enforce_action action ≡ none
      → enforce env action s ≡ (ok tt, s)
  unfolding enforce
  enforce-allowed action s h =
      ap (λ o. elim o as (λ _. Result Unit × Db V) [ some e ↦ (err e, s) | none ↦ (ok tt, s) ]) h

  pub workflow_row-found :
      (id : ℕ) (s : Db V) (row : WorkflowRow V)
      → find_row row_id id s.workflows ≡ some row
      → workflow_row env id s ≡ (ok row, s)
  unfolding workflow_row
  workflow_row-found id s row h = ap (λ o. (found o (lit "workflow not found"), s)) h

  pub workflow_row-missing :
      (id : ℕ) (s : Db V)
      → find_row row_id id s.workflows ≡ none
      → workflow_row env id s ≡ (err (not_found (lit "workflow not found")), s)
  unfolding workflow_row
  workflow_row-missing id s h = ap (λ o. (found o (lit "workflow not found"), s)) h

  pub execution_row-found :
      (id : ℕ) (s : Db V) (row : ExecutionRow V)
      → find_row execution_id id s.executions ≡ some row
      → execution_row env id s ≡ (ok row, s)
  unfolding execution_row
  execution_row-found id s row h = ap (λ o. (found o (lit "execution not found"), s)) h
