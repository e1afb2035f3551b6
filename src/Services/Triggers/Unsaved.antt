-- ===== src/Services/Triggers/Unsaved.antt =====
-- Workflows that were created, copied or imported and then activated, but never updated by
-- `workflow_save` with their id: the stored document has the id zero.
use ferris_cms.Prelude.{
  ℕ, ◌≡◌, refl, ap, ◌∙◌, Bool, ◌&&◌, Option, none, some, List, [], ◌∷◌, ◌++◌, Text, lit, contains,
  arith, All, Bool-cases, inl, inr,
}
use ferris_cms.Workflow.Model.{OwsDocument, is_trigger_event}
use ferris_cms.Services.Database.{WorkflowRow, RunOptions, Db, lift, after, find_row, filter, Env}
use ferris_cms.Services.Keeps.{Anything, Post-holds, filter-All}
use ferris_cms.Services.Answers.{workflow_row-missing}
use ferris_cms.Services.Workflows.{
  row_id, model_to_workflow, workflow_load, workflow_create, workflow_save, workflow_delete,
  workflow_set_active, workflow_duplicate, workflow_import,
}
use ferris_cms.Services.Engine.{start_execution, execute_workflow}
use ferris_cms.Services.Triggers.{
  documents, load_active_workflows, matching_workflows, execute_all, dispatch_cms_event, cms_events,
  triggered,
}
use ferris_cms.Services.Triggers.Kept.{
  IsPositive, HasNoId, IsUnsaved, AllUnsaved, create-Keeps, save-Keeps, delete-Keeps,
  duplicate-Keeps, import-Keeps, set_active-Keeps,
}

-- a database that these operations make, each in its own environment
pub data Made {V : Type 0} : Db V → Type 0 where
  start : Made (record { workflows = []; executions = []; node_runs = []; jobs = [] })
  create :
      (env : Env V) (name : Text) (description : Option Text) (def : Option (OwsDocument V))
      (s : Db V)
      → IsPositive env
      → Made s
      → Made (workflow_create env name description def s).1
  save_new :
      (env : Env V) (def : OwsDocument V) (s : Db V)
      → IsPositive env
      → Made s
      → Made (workflow_save env none def s).1
  duplicate :
      (env : Env V) (id : ℕ) (name : Option Text) (s : Db V)
      → IsPositive env
      → Made s
      → Made (workflow_duplicate env id name s).1
  import_one :
      (env : Env V) (def : OwsDocument V) (s : Db V)
      → IsPositive env
      → Made s
      → Made (workflow_import env def s).1
  set_active :
      (env : Env V) (id : ℕ) (active : Bool) (s : Db V)
      → Made s
      → Made (workflow_set_active env id active s).1
  delete : (env : Env V) (id : ℕ) (s : Db V) → Made s → Made (workflow_delete env id s).1

Made-AllUnsaved : {V : Type 0} {s : Db V} → Made s → AllUnsaved s
Made-AllUnsaved start = tt
Made-AllUnsaved (create env name desc def s p m) =
    Post-holds AllUnsaved Anything (workflow_create env name desc def s)
      (create-Keeps env name desc def p s (Made-AllUnsaved m))
Made-AllUnsaved (save_new env def s p m) =
    Post-holds AllUnsaved Anything (workflow_save env none def s)
      (save-Keeps env def p s (Made-AllUnsaved m))
Made-AllUnsaved (duplicate env id name s p m) =
    Post-holds AllUnsaved Anything (workflow_duplicate env id name s)
      (duplicate-Keeps env id name p s (Made-AllUnsaved m))
Made-AllUnsaved (import_one env def s p m) =
    Post-holds AllUnsaved Anything (workflow_import env def s)
      (import-Keeps env def p s (Made-AllUnsaved m))
Made-AllUnsaved (set_active env id active s m) =
    Post-holds AllUnsaved Anything (workflow_set_active env id active s)
      (set_active-Keeps env id active s (Made-AllUnsaved m))
Made-AllUnsaved (delete env id s m) =
    Post-holds AllUnsaved Anything (workflow_delete env id s)
      (delete-Keeps env id s (Made-AllUnsaved m))

unlisted :
    {V : Type 0} (rows : List (WorkflowRow V)) → All IsUnsaved rows → find_row row_id 0 rows ≡ none
unfolding find_row
unlisted [] h = refl
unlisted (row ∷ rows) ((p, d), h) = ground (arith, unlisted rows h)

documents-HasNoId :
    {V : Type 0} (rows : List (WorkflowRow V))
    → All IsUnsaved rows
    → All (λ d. d.id ≡ 0) (documents rows)
unfolding documents
documents-HasNoId [] h = tt
documents-HasNoId {V = V} (row ∷ rows) ((p, d), h) =
    go row.definition_json d (documents-HasNoId rows h)
  where
    go :
        (o : Option (OwsDocument V))
        → HasNoId o
        → All (λ d. d.id ≡ 0) (documents rows)
        → All
            (λ d. d.id ≡ 0)
            (elim o as (λ _. List (OwsDocument V)) [
              | some d ↦ d ∷ documents rows
              | none ↦ documents rows
            ])
    go none d rest = rest
    go (some _) d rest = (d, rest)

module _ {V : Type 0} (env : Env V) where
  execute_workflow-missing :
      (id : ℕ) (opts : RunOptions V) (s : Db V)
      → find_row row_id id s.workflows ≡ none
      → (execute_workflow env id opts s).1 ≡ s
  unfolding execute_workflow workflow_load
  execute_workflow-missing id opts s h =
      ap
        (λ r.
          (after (after r (λ row. lift (model_to_workflow row)))
            (λ d. start_execution env d opts)).1)
        (workflow_row-missing env id s h)

  execute_all-missing :
      (opts : RunOptions V) (ds : List (OwsDocument V)) (s : Db V)
      → find_row row_id 0 s.workflows ≡ none
      → All (λ d. d.id ≡ 0) ds
      → execute_all env opts ds s ≡ s
  unfolding execute_all
  execute_all-missing opts [] s h z = refl
  execute_all-missing opts (d ∷ ds) s h (e, z) =
      ap (λ id. execute_all env opts ds (execute_workflow env id opts s).1) e
      ∙ ap (execute_all env opts ds) (execute_workflow-missing 0 opts s h)
      ∙ execute_all-missing opts ds s h z

  -- In a database whose workflows were created, copied or imported and then activated, but never
  -- updated with `workflow_save`, an event starts no execution: the database stays as it is, also
  -- where the event matches workflows and they are counted as triggered.
  pub dispatch_cms_event-Made :
      (event uid : Text) (entry : V) (s : Db V)
      → Made s
      → (dispatch_cms_event env event uid entry s).1 ≡ s
  unfolding dispatch_cms_event load_active_workflows matching_workflows
  dispatch_cms_event-Made event uid entry s m =
      elim (Bool-cases (is_trigger_event event && contains cms_events event)) [
        | inl e ↦ rw e (
            execute_all-missing (triggered env (event ++ (lit ":" ++ uid)) entry)
              (matching_workflows env.as_str (load_active_workflows s) event (some uid)) s
              (unlisted s.workflows (Made-AllUnsaved m))
              (filter-All (λ d. d.id ≡ 0) _ (load_active_workflows s)
                (documents-HasNoId (filter (λ row. row.active) s.workflows)
                  (filter-All IsUnsaved (λ row. row.active) s.workflows (Made-AllUnsaved m)))))
        | inr e ↦ rw e refl
      ]
