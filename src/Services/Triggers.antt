-- ===== src/Services/Triggers.antt =====
-- crates/services/src/workflow/triggers.rs: the events that start workflows.
pub mod Kept
pub mod Unsaved
use ferris_cms.Prelude.{
  ℕ, ◌+◌, Bool, true, false, ◌&&◌, ◌||◌, Option, none, some, List, [], ◌∷◌, ◌++◌, is_empty, any,
  length, map, Text, lit, text_eq, contains, lookup, ◌==◌, if◌then◌else◌,
}
use ferris_cms.Workflow.Model.{EventFilter, OwsDocument, is_trigger_event, is_scheduled}
use ferris_cms.Workflow.Validation.{event_type, schedule_filters}
use ferris_cms.Services.Database.{
  WorkflowRow, RunOptions, Db, Result, ok, err, Service, filter, Env,
}
use ferris_cms.Services.Engine.{execute_workflow}

-- `EVENTS`
abbrev pub cms_events : List Text
cms_events =
    lit "content.created"
    ∷ lit "content.updated"
    ∷ lit "content.published"
    ∷ lit "content.deleted"
    ∷ lit "media.uploaded"
    ∷ lit "user.created"
    ∷ []

-- the documents of the rows that are one
unfoldable pub documents : {V : Type 0} → List (WorkflowRow V) → List (OwsDocument V)
documents [] = []
documents (row ∷ rows) =
    let rest = documents rows in elim row.definition_json [ some d ↦ d ∷ rest | none ↦ rest ]

unfoldable pub load_active_workflows : {V : Type 0} → Db V → List (OwsDocument V)
unfolding documents filter
load_active_workflows s = documents (filter (λ row. row.active) s.workflows)

-- `trim_start_matches('/')`
unfoldable pub trim_slashes : Text → Text
trim_slashes [] = []
trim_slashes (c ∷ s) = let rest = trim_slashes s in if c == b'/' then rest else c ∷ s

-- `trim_end_matches('/').is_empty()`
unfoldable pub only_slashes : Text → Bool
only_slashes [] = true
only_slashes (c ∷ s) = c == b'/' && only_slashes s

module _ {V : Type 0} (as_str : V → Option Text) where
  unfoldable pub event_filters : OwsDocument V → List (EventFilter V)
  unfolding schedule_filters
  event_filters doc = schedule_filters doc.definition.schedule

  -- the text under a key of a filter's `with`
  unfoldable pub filter_text : Text → EventFilter V → Option Text
  unfolding lookup
  filter_text key f = elim f.with [
    | some fields ↦ elim (lookup key fields) [ some v ↦ as_str v | none ↦ none ]
    | none ↦ none
  ]

  abbrev is_text : Option Text → Text → Bool
  is_text none t = false
  is_text (some s) t = text_eq s t

  abbrev of_uid : Option Text → EventFilter V → Bool
  of_uid none f = true
  of_uid (some uid) f = is_text (filter_text (lit "contentType") f) uid

  unfoldable pub filter_matches : Text → Option Text → EventFilter V → Bool
  unfolding filter_text text_eq
  filter_matches event uid f = is_text (filter_text (lit "type") f) event && of_uid uid f

  unfoldable pub matching_workflows :
      List (OwsDocument V) → Text → Option Text → List (OwsDocument V)
  unfolding filter event_filters filter_matches
  matching_workflows workflows event uid =
      filter (λ w. w.active && any (filter_matches event uid) (event_filters w)) workflows

  abbrev path_of : EventFilter V → Text
  path_of f = elim (filter_text (lit "path") f) [ some p ↦ p | none ↦ [] ]

  unfoldable pub is_webhook : Text → EventFilter V → Bool
  unfolding filter_text text_eq trim_slashes only_slashes
  is_webhook path f =
      is_text (filter_text (lit "type") f) (lit "webhook")
      && (text_eq (trim_slashes (path_of f)) (trim_slashes path) || only_slashes (path_of f))

  -- the first workflow with a filter for the path
  unfoldable pub webhook_loop : Text → List (OwsDocument V) → Option (ℕ × Text)
  unfolding is_webhook event_filters
  webhook_loop path [] = none
  webhook_loop path (wf ∷ wfs) =
      let rest = webhook_loop path wfs in
      if any (is_webhook path) (event_filters wf) then some (wf.id, lit "webhook") else rest

  unfoldable pub workflow_for_webhook : Text → Db V → Option (ℕ × Text)
  unfolding webhook_loop load_active_workflows
  workflow_for_webhook path s = webhook_loop path (load_active_workflows s)

module _ {V : Type 0} (env : Env V) where
  -- `let _ = execute_workflow(..)` for each workflow
  unfoldable pub execute_all : RunOptions V → List (OwsDocument V) → Db V → Db V
  unfolding execute_workflow
  execute_all opts [] s = s
  execute_all opts (wf ∷ wfs) s = execute_all opts wfs (execute_workflow env wf.id opts s).1

  abbrev pub triggered : Text → V → RunOptions V
  triggered trigger input = record {
    mode = lit "trigger";
    trigger = trigger;
    input = input;
    max_attempts = 3;
  }

  unfoldable pub dispatch_cms_event : Text → Text → V → Db V → ℕ × Db V
  unfolding is_trigger_event contains load_active_workflows matching_workflows execute_all
  dispatch_cms_event event uid entry s =
      let matches = matching_workflows env.as_str (load_active_workflows s) event (some uid) in
      if is_trigger_event event && contains cms_events event
      then (length matches, execute_all (triggered (event ++ (lit ":" ++ uid)) entry) matches s)
      else (0, s)

  abbrev dispatch : Text → V → Db V → ℕ × Db V
  dispatch event input s =
      let matches = matching_workflows env.as_str (load_active_workflows s) event none in
      (length matches, execute_all (triggered event input) matches s)

  unfoldable pub dispatch_media_event : V → Db V → ℕ × Db V
  unfolding load_active_workflows matching_workflows execute_all
  dispatch_media_event file = dispatch (lit "media.uploaded") file

  unfoldable pub dispatch_user_event : V → Db V → ℕ × Db V
  unfolding load_active_workflows matching_workflows execute_all
  dispatch_user_event user = dispatch (lit "user.created") user

  abbrev pub webhook_options : Text → Text → V → RunOptions V
  webhook_options method path body = record {
    mode = lit "webhook";
    trigger = method ++ (lit " " ++ path);
    input = body;
    max_attempts = 1;
  }

  unfoldable pub execute_webhook : ℕ → Text → Text → V → Service V ℕ
  unfolding execute_workflow
  execute_webhook workflow_id method path body =
      execute_workflow env workflow_id (webhook_options method path body)

  abbrev pub count_ok : Result ℕ × Db V → (Db V → ℕ × Db V) → ℕ × Db V
  count_ok (ok _, s) k = let (n, s') = k s in (n + 1, s')
  count_ok (err _, s) k = k s

  -- `now` is `json!({ "now": .. })`
  abbrev pub schedule_options : V → RunOptions V
  schedule_options now = record {
    mode = lit "schedule";
    trigger = lit "schedule";
    input = now;
    max_attempts = 3;
  }

  unfoldable pub run_scheduled : V → List (OwsDocument V) → Db V → ℕ × Db V
  unfolding is_scheduled execute_workflow
  run_scheduled now [] s = (0, s)
  run_scheduled now (wf ∷ wfs) s =
      if is_scheduled wf
      then count_ok (execute_workflow env wf.id (schedule_options now) s) (run_scheduled now wfs)
      else run_scheduled now wfs s

  unfoldable pub run_scheduled_workflows : V → Db V → ℕ × Db V
  unfolding load_active_workflows run_scheduled
  run_scheduled_workflows now s = run_scheduled now (load_active_workflows s) s
