-- ===== src/Workflow/Model.antt =====
-- crates/workflow/src/model.rs. The definition types of the SDK crate `serverless_workflow_core` are
-- represented by the parts that the code reads: the twelve kinds of a task, its `then`, the function
-- of a `call`, the cases of a `switch`, and the schedule. `V` is the type of JSON values.
use ferris_cms.Prelude.{
  ℕ, ◌≡◌, Bool, true, false, ◌||◌, Option, none, some, List, [], ◌∷◌, length, Text, lit, contains,
  text_eq, Assoc, keys,
}

-- `TaskDefinitionFields`: only `then` is read.
pub record TaskDefinitionFields : Type 0 where
  pub then_to : Option Text

pub record SwitchCase : Type 0 where
  pub then_to : Option Text

pub data TaskDefinition : Type 0 where
  call : TaskDefinitionFields → Text → TaskDefinition
  do_ emit for fork listen raise run set : TaskDefinitionFields → TaskDefinition
  switch : TaskDefinitionFields → List (Assoc SwitchCase) → TaskDefinition
  try wait : TaskDefinitionFields → TaskDefinition

pub record EventFilter (V : Type 0) : Type 0 where
  pub with : Option (Assoc V)

pub record EventConsumption (V : Type 0) : Type 0 where
  pub all : Option (List (EventFilter V))
  pub any : Option (List (EventFilter V))
  pub one : Option (EventFilter V)

pub record Schedule (V : Type 0) : Type 0 where
  pub every : Option Text
  pub cron : Option Text
  pub after : Option Text
  pub on : Option (EventConsumption V)

-- `do_.entries` is a list of maps; each map is listed in its iteration order.
pub record WorkflowDefinition (V : Type 0) : Type 0 where
  pub name : Text
  pub title : Option Text
  pub summary : Option Text
  pub tags : Option (Assoc Text)
  pub entries : List (Assoc TaskDefinition)
  pub schedule : Option (Schedule V)

pub record OwsDocument (V : Type 0) : Type 0 where
  pub id : ℕ
  pub active : Bool
  pub version : ℕ
  pub created_at : ℕ
  pub updated_at : ℕ
  pub definition : WorkflowDefinition V

abbrev pub ows_trigger_events : List Text
ows_trigger_events =
    lit "content.created"
    ∷ lit "content.updated"
    ∷ lit "content.published"
    ∷ lit "content.deleted"
    ∷ lit "media.uploaded"
    ∷ lit "user.created"
    ∷ lit "webhook"
    ∷ lit "manual"
    ∷ lit "schedule"
    ∷ lit "workflow"
    ∷ []

unfoldable pub is_trigger_event : Text → Bool
unfolding contains text_eq
is_trigger_event event_type = contains ows_trigger_events event_type

-- `function::ALL`
abbrev pub all_functions : List Text
all_functions =
    lit "cms.getContent"
    ∷ lit "cms.findContent"
    ∷ lit "cms.queryContent"
    ∷ lit "cms.createContent"
    ∷ lit "cms.updateContent"
    ∷ lit "cms.deleteContent"
    ∷ lit "cms.publishContent"
    ∷ lit "cms.unpublishContent"
    ∷ lit "cms.getMedia"
    ∷ lit "cms.uploadMedia"
    ∷ lit "cms.transformData"
    ∷ lit "data.json"
    ∷ lit "data.csv"
    ∷ lit "core.transform"
    ∷ lit "core.code"
    ∷ lit "core.editFields"
    ∷ lit "http.request"
    ∷ lit "http.webhook"
    ∷ lit "http.graphql"
    ∷ lit "http.rest"
    ∷ lit "db.query"
    ∷ lit "db.postgres"
    ∷ lit "db.redis"
    ∷ []

unfoldable pub is_known : Text → Bool
unfolding contains text_eq
is_known name = contains all_functions name

-- `iter().filter_map(|e| e.iter().next())`
pub first_entries {ℓ} : {A : Type ℓ} → List (Assoc A) → Assoc A
first_entries [] = []
first_entries ([] ∷ es) = first_entries es
first_entries ((e ∷ _) ∷ es) = e ∷ first_entries es

-- `iter().filter_map(|e| e.keys().next())`
pub first_keys {ℓ} : {A : Type ℓ} → List (Assoc A) → List Text
first_keys [] = []
first_keys ([] ∷ es) = first_keys es
first_keys (((name, _) ∷ _) ∷ es) = name ∷ first_keys es

module _ {V : Type 0} where
  unfoldable pub task_entries : WorkflowDefinition V → Assoc TaskDefinition
  unfolding first_entries
  task_entries definition = first_entries definition.entries

  unfoldable pub task_names : OwsDocument V → List Text
  unfolding first_keys
  task_names doc = first_keys doc.definition.entries

  unfoldable pub task_count : OwsDocument V → ℕ
  task_count doc = length doc.definition.entries

  unfoldable pub description : OwsDocument V → Option Text
  description doc = elim doc.definition.summary [ some s ↦ some s | none ↦ doc.definition.title ]

  unfoldable pub tags : OwsDocument V → List Text
  tags doc = elim doc.definition.tags [ some t ↦ keys t | none ↦ [] ]

abbrev is_some {ℓ} : {A : Type ℓ} → Option A → Bool
is_some none = false
is_some (some _) = true

module _ {V : Type 0} where
  unfoldable pub is_scheduled : OwsDocument V → Bool
  is_scheduled doc = elim doc.definition.schedule [
    | some s ↦ is_some s.every || is_some s.cron || is_some s.after
    | none ↦ false
  ]

  unfoldable pub cron : OwsDocument V → Option Text
  cron doc = elim doc.definition.schedule [ some s ↦ s.cron | none ↦ none ]

-- The entries and the names list the same tasks in the same order.
pub keys-first_entries {ℓ} :
    {A : Type ℓ} (es : List (Assoc A)) → keys (first_entries es) ≡ first_keys es
unfolding first_entries first_keys
keys-first_entries [] = cc
keys-first_entries ([] ∷ es) = keys-first_entries es
keys-first_entries ((e ∷ _) ∷ es) = cc (keys-first_entries es)

pub keys-task_entries :
    {V : Type 0} (doc : OwsDocument V) → keys (task_entries doc.definition) ≡ task_names doc
unfolding task_entries task_names
keys-task_entries doc = keys-first_entries doc.definition.entries
