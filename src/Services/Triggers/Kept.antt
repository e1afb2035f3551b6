-- ===== src/Services/Triggers/Kept.antt =====
-- The operations that create, copy, import, activate and delete workflows keep the id zero in the
-- stored documents.
use ferris_cms.Prelude.{
  ℕ, ◌≡◌, ◌≢◌, refl, sym, Bool, true, false, Option, none, some, List, Text, lit, All, All-append,
}
use ferris_cms.Workflow.Model.{OwsDocument}
use ferris_cms.Services.Database.{
  internal, WorkflowRow, Db, Result, ok, err, found, pure, lift, find_row, Env,
}
use ferris_cms.Services.Keeps.{
  id-created_document, Keeps, Keeps-bind, Keeps-lift, Anything, Keeps-guarded, lift-Keeps, ok-inj,
  find_row-holds, update_row-All, filter-All,
}
use ferris_cms.Services.Workflows.{
  row_id, model_to_workflow, created_document, copied_document, checked, insert_workflow,
  update_workflow, workflow_row, workflow_load, workflow_get, workflow_create, workflow_save,
  workflow_delete, workflow_set_active, workflow_duplicate, workflow_import, create_action,
  delete_action, activate_action, view_action, save_row,
}

-- ids of rows start at one
abbrev pub IsPositive : {V : Type 0} → Env V → Type 0
IsPositive env = (ids : List ℕ) → env.new_id ids ≢ 0

abbrev pub HasNoId : {V : Type 0} → Option (OwsDocument V) → Type 0
HasNoId none = Unit
HasNoId (some d) = d.id ≡ 0

abbrev pub IsUnsaved : {V : Type 0} → WorkflowRow V → Type 0
IsUnsaved row = (row.id ≢ 0) × HasNoId row.definition_json

abbrev pub AllUnsaved : {V : Type 0} → Db V → Type 0
AllUnsaved s = All IsUnsaved s.workflows

module _ {V : Type 0} (env : Env V) where
  pub insert-Keeps :
      (d : OwsDocument V)
      → d.id ≡ 0
      → IsPositive env
      → Keeps AllUnsaved IsUnsaved (insert_workflow env d)
  unfolding insert_workflow
  insert-Keeps d e p s i = (All-append IsUnsaved s.workflows _ i ((p _, e), tt), (p _, e))

  pub row-Keeps : (id : ℕ) → Keeps {V = V} AllUnsaved IsUnsaved (workflow_row env id)
  unfolding workflow_row
  row-Keeps id s i =
      Keeps-lift AllUnsaved IsUnsaved
        (found (find_row row_id id s.workflows) (lit "workflow not found"))
        (λ row e. find_row-holds row_id IsUnsaved id s.workflows _ row i e) s i

  pub update-Keeps :
      (row : WorkflowRow V) → IsUnsaved row → Keeps AllUnsaved IsUnsaved (update_workflow env row)
  unfolding update_workflow
  update-Keeps row p s i = (update_row-All row_id IsUnsaved row.id row s.workflows i p, p)

  pub create-Keeps :
      (name : Text) (desc : Option Text) (def : Option (OwsDocument V))
      → IsPositive env
      → Keeps AllUnsaved Anything (workflow_create env name desc def)
  unfolding workflow_create
  create-Keeps name desc def p = Keeps-guarded AllUnsaved env Anything create_action _ λ u.
      Keeps-bind AllUnsaved IsUnsaved Anything
        (insert_workflow env (created_document env name desc def))
        (λ row. pure (record (created_document env name desc def) { id = row.id }))
        (insert-Keeps (created_document env name desc def) (id-created_document env name desc def)
          p)
        λ row q s i. (i, tt)

  pub save-Keeps :
      (d : OwsDocument V) → IsPositive env → Keeps AllUnsaved Anything (workflow_save env none d)
  unfolding workflow_save
  save-Keeps d p =
      Keeps-bind AllUnsaved IsUnsaved Anything (save_row env none d) _
        (Keeps-guarded AllUnsaved env IsUnsaved create_action _ λ u.
          insert-Keeps
            (record d { id = 0; version = 1; created_at = env.now; updated_at = env.now }) refl p)
        λ row q.
          Keeps-bind AllUnsaved Anything Anything (lift (model_to_workflow row))
            (λ saved. pure (record saved { id = row.id }))
            (lift-Keeps AllUnsaved (model_to_workflow row)) λ saved r s i. (i, tt)

  pub delete-Keeps : (id : ℕ) → Keeps AllUnsaved Anything (workflow_delete env id)
  unfolding workflow_delete
  delete-Keeps id = Keeps-guarded AllUnsaved env Anything delete_action _ λ u.
      Keeps-bind AllUnsaved IsUnsaved Anything (workflow_row env id) _ (row-Keeps id)
        λ row p s i. (filter-All IsUnsaved _ s.workflows i, tt)

  pub duplicate-Keeps :
      (id : ℕ) (name : Option Text)
      → IsPositive env
      → Keeps AllUnsaved Anything (workflow_duplicate env id name)
  unfolding workflow_duplicate workflow_get workflow_load
  duplicate-Keeps id name p = Keeps-guarded AllUnsaved env Anything create_action _ λ u.
      Keeps-bind AllUnsaved Anything Anything (workflow_get env id) _
        (Keeps-guarded AllUnsaved env Anything view_action _ λ v.
          Keeps-bind AllUnsaved IsUnsaved Anything (workflow_row env id) _ (row-Keeps id)
            λ row q. lift-Keeps AllUnsaved (model_to_workflow row))
        λ d q. save-Keeps (copied_document env name d) p

  pub import-Keeps :
      (d : OwsDocument V) → IsPositive env → Keeps AllUnsaved Anything (workflow_import env d)
  unfolding workflow_import
  import-Keeps d p =
      Keeps-bind AllUnsaved Anything Anything (lift (checked env true d)) _
        (lift-Keeps AllUnsaved _) λ v w. save-Keeps (record d { active = false }) p

  pub row_document :
      (row : WorkflowRow V) (d : OwsDocument V)
      → HasNoId row.definition_json
      → model_to_workflow row ≡ ok d
      → d.id ≡ 0
  unfolding model_to_workflow
  row_document row d p e = go row.definition_json p e
    where
      go :
          (o : Option (OwsDocument V))
          → HasNoId o
          → (elim o as (λ _. Result (OwsDocument V)) [
            | some d ↦ ok d
            | none ↦ err (internal (lit "corrupt OWS definition"))
          ])
            ≡ ok d
          → d.id ≡ 0
      go none m q = absurd (cc q)
      go (some d') m q = rw (ok-inj d d' (sym q)) m

  pub set_active-Keeps :
      (id : ℕ) (active : Bool) → Keeps AllUnsaved Anything (workflow_set_active env id active)
  unfolding workflow_set_active
  set_active-Keeps id active = Keeps-guarded AllUnsaved env Anything activate_action _ λ u.
      Keeps-bind AllUnsaved IsUnsaved Anything (workflow_row env id) _ (row-Keeps id) λ row p.
        Keeps-bind AllUnsaved (λ d. d.id ≡ 0) Anything (lift (model_to_workflow row)) _
          (Keeps-lift AllUnsaved (λ d. d.id ≡ 0) (model_to_workflow row)
            λ d e. row_document row d p.1 e)
          λ d m.
            Keeps-bind AllUnsaved Anything Anything
              (lift (checked env active (record d { active = active }))) _ (lift-Keeps AllUnsaved _)
              λ v w.
                Keeps-bind AllUnsaved IsUnsaved Anything
                  (update_workflow env (record row {
                    active = active;
                    definition_json = some (record d { active = active });
                    updated_at = env.now;
                  }))
                  (λ updated. lift (model_to_workflow updated))
                  (update-Keeps
                    (record row {
                      active = active;
                      definition_json = some (record d { active = active });
                      updated_at = env.now;
                    })
                    (p.0, m))
                  λ updated q. lift-Keeps AllUnsaved (model_to_workflow updated)
