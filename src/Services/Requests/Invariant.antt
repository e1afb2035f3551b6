-- ===== src/Services/Requests/Invariant.antt =====
-- What holds of the workflows and the executions in every database that is reached.
use ferris_cms.Prelude.{
  ℕ, ◌≡◌, refl, sym, Bool, true, false, Option, none, some, List, [], ◌∷◌, Text, lit, All,
  All-append, inl, inr, ◌⊎◌,
}
use ferris_cms.Workflow.Model.{OwsDocument}
use ferris_cms.Services.Database.{
  internal, WorkflowRow, ExecutionRow, Db, Result, ok, err, found, pure, lift, find_row, Env,
}
use ferris_cms.Services.Keeps.{
  Keeps, Keeps-bind, Keeps-lift, Anything, Keeps-guarded, lift-Keeps, ok-inj, find_row-holds,
  found-id, id-created_document, update_row-All, filter-All,
}
use ferris_cms.Services.Workflows.{
  row_id, model_to_workflow, new_row, created_document, copied_document, insert_workflow,
  update_workflow, workflow_row, workflow_load, save_row, checked, check_all, save_all,
  workflow_get, workflow_create, workflow_save, workflow_delete, workflow_set_active,
  workflow_duplicate, workflow_import, workflow_import_bulk, create_action, update_action,
  delete_action, activate_action, view_action,
}
use ferris_cms.Prelude.Int.{ℤ}
use ferris_cms.Services.Engine.{OwsExecutionStatus, running, is_terminal, as_str}

-- The name, the description, the version and the flag `active` of a workflow are those of its stored
-- document, and the id of that document is 0 or the id of the row. The times of the document and of
-- the row may differ.
pub record IsMirror {V : Type 0} (row : WorkflowRow V) (document : OwsDocument V) : Type 0 where
  pub names : row.name ≡ document.definition.name
  pub descriptions : row.description ≡ document.definition.summary
  pub versions : row.version ≡ document.version
  pub actives : row.active ≡ document.active
  pub ids : (document.id ≡ 0) ⊎ (document.id ≡ row.id)

abbrev pub IsMirrored : {V : Type 0} → WorkflowRow V → Type 0
IsMirrored row = elim row.definition_json as (λ _. Type 0) [ some d ↦ IsMirror row d | none ↦ Unit ]

-- The status of an execution is one of four, and its end, its duration and its status go together.
pub data IsSettled {V : Type 0} (e : ExecutionRow V) : Type 0 where
  unfinished :
      e.status ≡ as_str running
      → e.finished_at ≡ none
      → e.duration_ms ≡ none
      → e.error ≡ none
      → IsSettled e
  ended :
      (status : OwsExecutionStatus) (t : ℕ) (d : ℤ)
      → is_terminal status ≡ true
      → e.status ≡ as_str status
      → e.finished_at ≡ some t
      → e.duration_ms ≡ some d
      → IsSettled e

pub record Inv {V : Type 0} (s : Db V) : Type 0 where
  pub mirrored : All IsMirrored s.workflows
  pub settled : All IsSettled s.executions

module _ {V : Type 0} (env : Env V) where
  new_row-IsMirrored : (d : OwsDocument V) → d.id ≡ 0 → (id : ℕ) → IsMirrored (new_row env d id)
  new_row-IsMirrored d z id = record {
    names = refl;
    descriptions = refl;
    versions = refl;
    actives = refl;
    ids = inl z;
  }

  insert-Keeps : (d : OwsDocument V) → d.id ≡ 0 → Keeps Inv IsMirrored (insert_workflow env d)
  unfolding insert_workflow
  insert-Keeps d z s i = (
    record {
      mirrored = All-append IsMirrored s.workflows _ i.mirrored (new_row-IsMirrored d z _, tt);
      settled = i.settled;
    },
    new_row-IsMirrored d z _,
  )

  update-Keeps :
      (row : WorkflowRow V) → IsMirrored row → Keeps Inv IsMirrored (update_workflow env row)
  unfolding update_workflow
  update-Keeps row p s i = (
    record {
      mirrored = update_row-All row_id IsMirrored row.id row s.workflows i.mirrored p;
      settled = i.settled;
    },
    p,
  )

  row-Keeps : (id : ℕ) → Keeps Inv IsMirrored (workflow_row env id)
  unfolding workflow_row
  row-Keeps id s i =
      Keeps-lift Inv IsMirrored (found (find_row row_id id s.workflows) (lit "workflow not found"))
        (λ row e. find_row-holds row_id IsMirrored id s.workflows _ row i.mirrored e) s i

  -- the row of an id has this id
  row-Keeps_id : (id : ℕ) → Keeps Inv (λ row. row.id ≡ id) (workflow_row env id)
  unfolding workflow_row
  row-Keeps_id id s i =
      Keeps-lift Inv (λ row. row.id ≡ id)
        (found (find_row row_id id s.workflows) (lit "workflow not found"))
        (λ row e. found-id row_id id s.workflows _ row e) s i

  save_row-Keeps : (id : Option ℕ) (d : OwsDocument V) → Keeps Inv IsMirrored (save_row env id d)
  save_row-Keeps (some id) d = Keeps-guarded Inv env IsMirrored update_action _ λ u.
      Keeps-bind Inv (λ row. row.id ≡ id) IsMirrored (workflow_row env id) _ (row-Keeps_id id)
        λ existing e. update-Keeps _ (record {
          names = refl;
          descriptions = refl;
          versions = refl;
          actives = refl;
          ids = inr (sym e);
        })
  save_row-Keeps none d = Keeps-guarded Inv env IsMirrored create_action _ λ u. insert-Keeps _ refl

  pub create-Keeps :
      (name : Text) (desc : Option Text) (def : Option (OwsDocument V))
      → Keeps Inv Anything (workflow_create env name desc def)
  unfolding workflow_create
  create-Keeps name desc def = Keeps-guarded Inv env Anything create_action _ λ u.
      Keeps-bind Inv IsMirrored Anything (insert_workflow env (created_document env name desc def))
        (λ row. pure (record (created_document env name desc def) { id = row.id }))
        (insert-Keeps (created_document env name desc def) (id-created_document env name desc def))
        λ row p s i. (i, tt)

  pub save-Keeps : (id : Option ℕ) (d : OwsDocument V) → Keeps Inv Anything (workflow_save env id d)
  unfolding workflow_save
  save-Keeps id d =
      Keeps-bind Inv IsMirrored Anything (save_row env id d) _ (save_row-Keeps id d) λ row p.
        Keeps-bind Inv Anything Anything (lift (model_to_workflow row))
          (λ saved. pure (record saved { id = row.id })) (lift-Keeps Inv (model_to_workflow row))
          λ saved q s i. (i, tt)

  pub delete-Keeps : (id : ℕ) → Keeps Inv Anything (workflow_delete env id)
  unfolding workflow_delete
  delete-Keeps id = Keeps-guarded Inv env Anything delete_action _ λ u.
      Keeps-bind Inv IsMirrored Anything (workflow_row env id) _ (row-Keeps id) λ row p s i. (
        record {
          mirrored = filter-All IsMirrored _ s.workflows i.mirrored;
          settled = filter-All IsSettled _ s.executions i.settled;
        },
        tt,
      )

  -- the document of a row with its columns
  row_document-IsMirror :
      (row : WorkflowRow V) (d : OwsDocument V)
      → IsMirrored row
      → model_to_workflow row ≡ ok d
      → IsMirror row d
  unfolding model_to_workflow
  row_document-IsMirror row d p e = go row.definition_json p e
    where
      go :
          (o : Option (OwsDocument V))
          → (elim o as (λ _. Type 0) [ some d ↦ IsMirror row d | none ↦ Unit ])
          → (elim o as (λ _. Result (OwsDocument V)) [
            | some d ↦ ok d
            | none ↦ err (internal (lit "corrupt OWS definition"))
          ])
            ≡ ok d
          → IsMirror row d
      go none m q = absurd (cc q)
      go (some d') m q = rw (ok-inj d d' (sym q)) m

  pub set_active-Keeps :
      (id : ℕ) (active : Bool) → Keeps Inv Anything (workflow_set_active env id active)
  unfolding workflow_set_active
  set_active-Keeps id active = Keeps-guarded Inv env Anything activate_action _ λ u.
      Keeps-bind Inv IsMirrored Anything (workflow_row env id) _ (row-Keeps id) λ row p.
        Keeps-bind Inv (IsMirror row) Anything (lift (model_to_workflow row)) _
          (Keeps-lift Inv (IsMirror row) (model_to_workflow row)
            λ d e. row_document-IsMirror row d p e)
          λ d m.
            Keeps-bind Inv Anything Anything
              (lift (checked env active (record d { active = active }))) _ (lift-Keeps Inv _)
              λ v w.
                Keeps-bind Inv IsMirrored Anything
                  (update_workflow env (record row {
                    active = active;
                    definition_json = some (record d { active = active });
                    updated_at = env.now;
                  }))
                  _
                  (update-Keeps
                    (record row {
                      active = active;
                      definition_json = some (record d { active = active });
                      updated_at = env.now;
                    })
                    (record {
                      names = m.names;
                      descriptions = m.descriptions;
                      versions = m.versions;
                      actives = refl;
                      ids = m.ids;
                    }))
                  λ updated q. lift-Keeps Inv (model_to_workflow updated)

  pub load-Keeps : (id : ℕ) → Keeps Inv Anything (workflow_load env id)
  unfolding workflow_load
  load-Keeps id =
      Keeps-bind Inv IsMirrored Anything (workflow_row env id) _ (row-Keeps id)
        λ row p. lift-Keeps Inv (model_to_workflow row)

  pub duplicate-Keeps :
      (id : ℕ) (name : Option Text) → Keeps Inv Anything (workflow_duplicate env id name)
  unfolding workflow_duplicate workflow_get
  duplicate-Keeps id name = Keeps-guarded Inv env Anything create_action _ λ u.
      Keeps-bind Inv Anything Anything (workflow_get env id) _
        (Keeps-guarded Inv env Anything view_action _ λ v. load-Keeps id)
        λ d q. save-Keeps none (copied_document env name d)

  pub import-Keeps : (d : OwsDocument V) → Keeps Inv Anything (workflow_import env d)
  unfolding workflow_import
  import-Keeps d =
      Keeps-bind Inv Anything Anything (lift (checked env true d)) _ (lift-Keeps Inv _)
        λ v w. save-Keeps none (record d { active = false })

  save_all-Keeps : (ds : List (OwsDocument V)) → Keeps Inv Anything (save_all env ds)
  unfolding save_all
  save_all-Keeps [] = λ s i. (i, tt)
  save_all-Keeps (d ∷ ds) =
      Keeps-bind Inv Anything Anything
        (workflow_save env none (record d { id = 0; active = false })) _
        (save-Keeps none (record d { id = 0; active = false }))
        λ saved p.
          Keeps-bind Inv Anything Anything (save_all env ds) (λ rest. pure (saved ∷ rest))
            (save_all-Keeps ds) λ rest q s i. (i, tt)

  pub import_bulk-Keeps :
      (ds : List (OwsDocument V)) → Keeps Inv Anything (workflow_import_bulk env ds)
  unfolding workflow_import_bulk
  import_bulk-Keeps ds =
      Keeps-bind Inv Anything Anything (lift (check_all env ds)) _ (lift-Keeps Inv _)
        λ v w. Keeps-guarded Inv env Anything create_action _ λ u. save_all-Keeps ds
