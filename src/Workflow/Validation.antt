-- ===== src/Workflow/Validation.antt =====
-- crates/workflow/src/validation.rs: the issues of a document. `as_str` is `serde_json`'s
-- `Value::as_str`. Each block of the function that pushes issues gives the list that it pushes.
pub mod Sound
use ferris_cms.Prelude.{
  Bool, true, false, not, ◌&&◌, Option, none, some, List, [], ◌∷◌, ◌++◌, is_empty, Text, lit,
  contains, Assoc, lookup, if◌then◌else◌,
}
use ferris_cms.Workflow.Model.{
  SwitchCase, TaskDefinition, call, switch, EventFilter, EventConsumption, Schedule, OwsDocument,
  is_trigger_event, is_known, task_names, task_entries,
}
use ferris_cms.Workflow.Graph.{Outcome, ok, err, out_of_fuel, execution_sequence, referenced_tasks}

pub record OwsValidationIssue : Type 0 where
  pub task_name : Option Text
  pub code : Text
  pub message : Text

pub record OwsValidation : Type 0 where
  pub valid : Bool
  pub errors : List OwsValidationIssue

abbrev issue : Option Text → Text → Text → List OwsValidationIssue
issue task_name code message = record { task_name = task_name; code = code; message = message } ∷ []

unfoldable pub empty_issues : List Text → List OwsValidationIssue
empty_issues [] = issue none (lit "empty_workflow") (lit "Workflow has no tasks.")
empty_issues (_ ∷ _) = []

unfoldable pub call_issues : Text → Text → List OwsValidationIssue
call_issues name function =
    if is_known function
    then []
    else issue (some name) (lit "unknown_function")
        (lit "Task '" ++ (name ++ (lit "' calls unknown function '" ++ (function ++ lit "'."))))

abbrev target_issues : Text → List Text → Option Text → List OwsValidationIssue
target_issues name names none = []
target_issues name names (some target) =
    if not (is_empty target) && not (contains names target)
    then issue (some name) (lit "unknown_task_reference") (
        lit "Switch task '"
        ++ (name ++ (lit "' case targets unknown task '" ++ (target ++ lit "'."))))
    else []

unfoldable pub case_issues : Text → List Text → List (Assoc SwitchCase) → List OwsValidationIssue
case_issues name names [] = []
case_issues name names ([] ∷ es) = case_issues name names es
case_issues name names (((_, case) ∷ _) ∷ es) =
    target_issues name names case.then_to ++ case_issues name names es

unfoldable pub task_issues : Text → List Text → TaskDefinition → List OwsValidationIssue
unfolding call_issues case_issues
task_issues name names (call _ function) = call_issues name function
task_issues name names (switch _ cases) = case_issues name names cases
task_issues name names _ = []

unfoldable pub entry_issues : List Text → Assoc TaskDefinition → List OwsValidationIssue
unfolding task_issues
entry_issues names [] = []
entry_issues names ((name, task) ∷ entries) =
    task_issues name names task ++ entry_issues names entries

unfoldable pub reference_issues : List Text → List Text → List OwsValidationIssue
reference_issues names [] = []
reference_issues names (name ∷ rest) =
    (if contains names name
      then []
      else issue none (lit "unknown_task_reference")
          (lit "Task flow references unknown task '" ++ (name ++ lit "'.")))
    ++ reference_issues names rest

module _ {V : Type 0} (as_str : V → Option Text) where
  -- `filter.with.get("type").and_then(|v| v.as_str())`
  unfoldable pub event_type : EventFilter V → Option Text
  event_type filter = elim filter.with [
    | some fields ↦ elim (lookup (lit "type") fields) [ some v ↦ as_str v | none ↦ none ]
    | none ↦ none
  ]

  abbrev type_issues : Option Text → List OwsValidationIssue
  type_issues none = []
  type_issues (some ty) =
      if is_trigger_event ty
      then []
      else issue none (lit "unknown_event") (lit "Unknown trigger event type '" ++ (ty ++ lit "'."))

  unfoldable pub event_issues : List (EventFilter V) → List OwsValidationIssue
  event_issues [] = []
  event_issues (filter ∷ rest) = type_issues (event_type filter) ++ event_issues rest

abbrev filters : {V : Type 0} → Option (List (EventFilter V)) → List (EventFilter V)
filters none = []
filters (some fs) = fs

abbrev one_filter : {V : Type 0} → Option (EventFilter V) → List (EventFilter V)
one_filter none = []
one_filter (some f) = f ∷ []

-- the filters of `schedule.on`
unfoldable pub schedule_filters : {V : Type 0} → Option (Schedule V) → List (EventFilter V)
schedule_filters none = []
schedule_filters (some schedule) = elim schedule.on [
  | none ↦ []
  | some on ↦ filters on.all ++ (filters on.any ++ one_filter on.one)
]

unfoldable pub cycle_issues : Outcome (List Text) → List OwsValidationIssue
cycle_issues (err message) = issue none (lit "cycle") message
cycle_issues (ok _) = []
cycle_issues out_of_fuel = []

module _ {V : Type 0} (as_str : V → Option Text) (doc : OwsDocument V) where
  unfoldable pub issues : List OwsValidationIssue
  issues =
      empty_issues (task_names doc)
      ++ (entry_issues (task_names doc) (task_entries doc.definition)
          ++ (reference_issues (task_names doc) (referenced_tasks doc)
              ++ (event_issues as_str (schedule_filters doc.definition.schedule)
                  ++ cycle_issues (execution_sequence doc))))

  unfoldable pub validate : OwsValidation
  unfolding issues
  validate = record { valid = is_empty issues; errors = issues }
