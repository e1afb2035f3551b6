-- ===== src/Services/Workflows.antt =====
-- crates/services/src/workflow/mod.rs: the stored workflows. The document that a caller gives is an
-- argument; that JSON or YAML text is read as one is left to serde.
pub mod Activated
pub mod Saved
use ferris_cms.Prelude.{
  ℕ, ◌+◌, Bool, true, false, not, Option, none, some, List, [], ◌∷◌, ◌++◌, map, Text, lit, ◌==◌,
  if◌then◌else◌,
}
use ferris_cms.Workflow.Model.{WorkflowDefinition, OwsDocument}
use ferris_cms.Workflow.Validation.{OwsValidationIssue, OwsValidation, validate}
use ferris_cms.Services.Database.{
  ValidationErrorItem, ServiceError, validation, internal, WorkflowRow, ExecutionRow, Db, Result,
  ok, err, found, Service, pure, fail, lift, after, ◌>>=◌, find_row, update_row, filter, Env,
}

-- `mod action`
abbrev pub view_action : Text
view_action = lit "plugin::workflow.workflow.read"

abbrev pub create_action : Text
create_action = lit "plugin::workflow.workflow.create"

abbrev pub update_action : Text
update_action = lit "plugin::workflow.workflow.update"

abbrev pub delete_action : Text
delete_action = lit "plugin::workflow.workflow.delete"

abbrev pub activate_action : Text
activate_action = lit "plugin::workflow.workflow.activate"

abbrev pub view_executions_action : Text
view_executions_action = lit "plugin::workflow.execution.read"

abbrev pub row_id : {V : Type 0} → WorkflowRow V → ℕ
row_id row = row.id

abbrev item_of : OwsValidationIssue → ValidationErrorItem
item_of e = record { path = []; message = e.message; name = e.code }

-- `ServiceError::Validation` of the issues of a document
abbrev pub invalid : List OwsValidationIssue → ServiceError
invalid issues = validation (map item_of issues)

module _ {V : Type 0} where
  unfoldable pub model_to_workflow : WorkflowRow V → Result (OwsDocument V)
  model_to_workflow row = elim row.definition_json [
    | some document ↦ ok document
    | none ↦ err (internal (lit "corrupt OWS definition"))
  ]

  abbrev pub named : Text → OwsDocument V → OwsDocument V
  named name document = record document { definition = record document.definition { name = name } }

  abbrev pub summarized : Option Text → OwsDocument V → OwsDocument V
  summarized none document = document
  summarized (some s) document = record document {
    definition = record document.definition { summary = some s };
  }

module _ {V : Type 0} (env : Env V) where
  unfoldable pub enforce : Text → Service V Unit
  enforce action s = elim (env.enforce_action action) [ some e ↦ (err e, s) | none ↦ (ok tt, s) ]

  unfoldable pub new_empty_document : Text → Option Text → ℕ → Bool → OwsDocument V
  new_empty_document name description version active = record {
    id = 0;
    active = active;
    version = version;
    created_at = env.now;
    updated_at = env.now;
    definition = record {
      name = name;
      title = none;
      summary = description;
      tags = none;
      entries = [];
      schedule = none;
    };
  }

  -- the columns follow the document
  abbrev pub new_row : OwsDocument V → ℕ → WorkflowRow V
  new_row document id = record {
    id = id;
    name = document.definition.name;
    description = document.definition.summary;
    version = document.version;
    active = document.active;
    definition_json = some document;
    created_at = env.now;
    updated_at = env.now;
    created_by = env.user;
    updated_by = env.user;
  }

  abbrev pub free_id : Db V → ℕ
  free_id s = env.new_id (map row_id s.workflows)

  -- `workflow::ActiveModel { .. }.insert(&ctx.db)`
  unfoldable pub insert_workflow : OwsDocument V → Service V (WorkflowRow V)
  insert_workflow document s = (
    ok (new_row document (free_id s)),
    record s { workflows = s.workflows ++ new_row document (free_id s) ∷ [] },
  )

  -- `am.update(&ctx.db)`
  unfoldable pub update_workflow : WorkflowRow V → Service V (WorkflowRow V)
  unfolding update_row
  update_workflow row s =
      (ok row, record s { workflows = update_row row_id row.id row s.workflows })

  -- `find_by_id(id).one(&ctx.db)`
  unfoldable pub workflow_row : ℕ → Service V (WorkflowRow V)
  unfolding find_row
  workflow_row id s = (found (find_row row_id id s.workflows) (lit "workflow not found"), s)

  unfoldable pub workflow_load : ℕ → Service V (OwsDocument V)
  unfolding workflow_row model_to_workflow
  workflow_load id = workflow_row id >>= λ row. lift (model_to_workflow row)

  unfoldable pub workflow_get : ℕ → Service V (OwsDocument V)
  unfolding enforce workflow_load
  workflow_get id = enforce view_action >>= λ _. workflow_load id

  abbrev given_document : Text → Option Text → Option (OwsDocument V) → OwsDocument V
  given_document name description (some d) = d
  given_document name description none = new_empty_document name description 1 false

  abbrev pub created_document : Text → Option Text → Option (OwsDocument V) → OwsDocument V
  created_document name description def = summarized description (
      named name (record (given_document name description def) {
        id = 0;
        version = 1;
        active = false;
        created_at = env.now;
        updated_at = env.now;
      }))

  unfoldable pub workflow_create :
      Text → Option Text → Option (OwsDocument V) → Service V (OwsDocument V)
  unfolding enforce insert_workflow new_empty_document
  workflow_create name description def = enforce create_action >>= λ _.
      insert_workflow (created_document name description def) >>= λ row.
      pure (record (created_document name description def) { id = row.id })

  abbrev pub saved_document : ℕ → ℕ → OwsDocument V → OwsDocument V
  saved_document id version def = record def { id = id; version = version; updated_at = env.now }

  abbrev pub saved_row : OwsDocument V → WorkflowRow V → WorkflowRow V
  saved_row new_def existing = record existing {
    name = new_def.definition.name;
    description = new_def.definition.summary;
    version = new_def.version;
    active = new_def.active;
    definition_json = some new_def;
    updated_at = env.now;
    updated_by = env.user;
  }

  -- the version is a natural number: the wrap-around of the code's `i64` is left out
  abbrev save_existing : ℕ → OwsDocument V → Service V (WorkflowRow V)
  save_existing id def = enforce update_action >>= λ _. workflow_row id >>= λ existing.
      update_workflow (saved_row (saved_document id (existing.version + 1) def) existing)

  abbrev save_new : OwsDocument V → Service V (WorkflowRow V)
  save_new def = enforce create_action >>= λ _.
      insert_workflow
        (record def { id = 0; version = 1; created_at = env.now; updated_at = env.now })

  abbrev pub save_row : Option ℕ → OwsDocument V → Service V (WorkflowRow V)
  save_row (some id) def = save_existing id def
  save_row none def = save_new def

  unfoldable pub workflow_save : Option ℕ → OwsDocument V → Service V (OwsDocument V)
  unfolding enforce workflow_row insert_workflow update_workflow model_to_workflow
  workflow_save id def = save_row id def >>= λ row.
      lift (model_to_workflow row) >>= λ saved. pure (record saved { id = row.id })

  unfoldable pub workflow_delete : ℕ → Service V Unit
  unfolding enforce workflow_row filter
  workflow_delete id = enforce delete_action >>= λ _. workflow_row id >>= λ row. λ s. (
    ok tt,
    record s {
      workflows = filter (λ r. not (r.id == row.id)) s.workflows;
      executions = filter (λ e. not (e.workflow_id == id)) s.executions;
    },
  )

  -- the check of a document that is activated
  abbrev pub checked : Bool → OwsDocument V → Result Unit
  checked false def = ok tt
  checked true def =
      let validation = validate env.as_str def in
      if validation.valid then ok tt else err (invalid validation.errors)

  unfoldable pub workflow_set_active : ℕ → Bool → Service V (OwsDocument V)
  unfolding enforce workflow_row update_workflow model_to_workflow validate
  workflow_set_active id active = enforce activate_action >>= λ _. workflow_row id >>= λ row.
      lift (model_to_workflow row) >>= λ document.
      let def = record document { active = active } in
      lift (checked active def) >>= λ _.
      update_workflow
        (record row { active = active; definition_json = some def; updated_at = env.now })
      >>= λ updated. lift (model_to_workflow updated)

  abbrev copy_name : Option Text → OwsDocument V → Text
  copy_name (some name) def = name
  copy_name none def = def.definition.name ++ lit " (copy)"

  abbrev pub copied_document : Option Text → OwsDocument V → OwsDocument V
  copied_document new_name def = named (copy_name new_name def) (record def {
    id = 0;
    active = false;
    version = 1;
    created_at = env.now;
    updated_at = env.now;
  })

  unfoldable pub workflow_duplicate : ℕ → Option Text → Service V (OwsDocument V)
  unfolding workflow_get workflow_save
  workflow_duplicate id new_name = enforce create_action >>= λ _.
      workflow_get id >>= λ def. workflow_save none (copied_document new_name def)

  unfoldable pub workflow_validate_definition : ℕ → Service V OwsValidation
  unfolding workflow_load validate
  workflow_validate_definition id = workflow_load id >>= λ def. pure (validate env.as_str def)

  -- `workflow_import`, of the document that was read
  unfoldable pub workflow_import : OwsDocument V → Service V (OwsDocument V)
  unfolding workflow_save validate
  workflow_import def =
      lift (checked true def) >>= λ _. workflow_save none (record def { active = false })

  abbrev pub check_all : List (OwsDocument V) → Result Unit
  check_all [] = ok tt
  check_all (d ∷ ds) = elim (checked true d) [ ok _ ↦ check_all ds | err e ↦ err e ]

  unfoldable pub save_all : List (OwsDocument V) → Service V (List (OwsDocument V))
  unfolding workflow_save
  save_all [] = pure []
  save_all (d ∷ ds) = workflow_save none (record d { id = 0; active = false }) >>= λ saved.
      save_all ds >>= λ rest. pure (saved ∷ rest)

  -- `workflow_import_bulk`, of the documents that were read
  unfoldable pub workflow_import_bulk : List (OwsDocument V) → Service V (List (OwsDocument V))
  unfolding enforce save_all validate
  workflow_import_bulk definitions =
      lift (check_all definitions) >>= λ _. enforce create_action >>= λ _. save_all definitions
