-- ===== src/Workflow/Tests.antt =====
-- Runs of the workflow model on small documents, and the instances of its theorems.
use ferris_cms.Prelude.{
  ◌≡◌, refl, ◌↔◌, true, false, Option, none, some, List, [], ◌∷◌, ◌++◌, head?, Text, lit, In, Nodup,
  Assoc, contains, text_eq, lookup,
}
use ferris_cms.Workflow.Model.{
  TaskDefinition, call, switch, OwsDocument, task_names, task_entries, is_known,
}
use ferris_cms.Workflow.Graph.{
  ok, execution_sequence, follow, next_task, find_task, task_then, by_name, is_directive, enter,
  leave, push_missing, referenced_tasks,
}
use ferris_cms.Workflow.Graph.Order.{IsFlow}
use ferris_cms.Workflow.Graph.Sequence.{execution_sequence-order, execution_sequence_returns}
use ferris_cms.Workflow.Validation.{
  validate, empty_issues, entry_issues, reference_issues, event_issues, schedule_filters,
  cycle_issues,
}
use ferris_cms.Workflow.Validation.Sound.{IsWellFormed, validate-valid_iff}

abbrev call_task : Option Text → TaskDefinition
call_task target = call (record { then_to = target }) (lit "data.json")

abbrev document : List (Assoc TaskDefinition) → OwsDocument Text
document entries = record {
  id = 1;
  active = false;
  version = 1;
  created_at = 0;
  updated_at = 0;
  definition = record {
    name = lit "g";
    title = none;
    summary = none;
    tags = none;
    entries = entries;
    schedule = none;
  };
}

-- a → c, and b by itself
abbrev jump : OwsDocument Text
jump = document (
    ((lit "a", call_task (some (lit "c"))) ∷ [])
    ∷ ((lit "b", call_task none) ∷ [])
    ∷ ((lit "c", call_task none) ∷ [])
    ∷ [])

-- a → b → a
abbrev loop : OwsDocument Text
loop = document (
    ((lit "a", call_task (some (lit "b"))) ∷ [])
    ∷ ((lit "b", call_task (some (lit "a"))) ∷ [])
    ∷ [])

-- a switch with a case that ends the workflow
abbrev branching : OwsDocument Text
branching = document (
    ((
      lit "s",
      switch (record { then_to = none })
          (((lit "default", record { then_to = some (lit "end") }) ∷ []) ∷ []),
    )
      ∷ [])
    ∷ [])

jump_order : execution_sequence jump ≡ ok (lit "a" ∷ lit "c" ∷ lit "b" ∷ [])
unfolding execution_sequence follow next_task find_task task_then by_name is_directive enter leave
    push_missing task_names task_entries contains text_eq lookup
jump_order = refl

-- The cycle is not an error: both tasks are listed once.
loop_order : execution_sequence loop ≡ ok (lit "a" ∷ lit "b" ∷ [])
unfolding execution_sequence follow next_task find_task task_then by_name is_directive enter leave
    push_missing task_names task_entries contains text_eq lookup
loop_order = refl

loop_valid : (validate some loop).valid ≡ true
unfolding validate empty_issues entry_issues reference_issues event_issues schedule_filters
    cycle_issues execution_sequence follow next_task find_task task_then by_name is_directive enter
    leave push_missing task_names task_entries contains text_eq lookup is_known referenced_tasks
loop_valid = refl

-- `end` is a directive, and the case that names it is refused.
branching_valid : (validate some branching).valid ≡ false
unfolding validate empty_issues entry_issues reference_issues event_issues schedule_filters
    cycle_issues execution_sequence follow next_task find_task task_then by_name is_directive enter
    leave push_missing task_names task_entries contains text_eq lookup is_known referenced_tasks
branching_valid = refl

jump_names : task_names jump ≡ lit "a" ∷ lit "b" ∷ lit "c" ∷ []
unfolding task_names
jump_names = refl

execution_sequence-order_example :
    (w : List Text) × (rest : List Text) × (execution_sequence jump ≡ ok (w ++ rest))
    × (head? w ≡ some (lit "a"))
    × IsFlow jump w w
    × Nodup (w ++ rest)
    × ((x : Text) → In x (w ++ rest) ↔ In x (task_names jump))
execution_sequence-order_example =
    execution_sequence-order jump (lit "a") (lit "b" ∷ lit "c" ∷ []) jump_names

execution_sequence_returns_example : (order : List Text) × (execution_sequence loop ≡ ok order)
execution_sequence_returns_example = execution_sequence_returns loop

validate-valid_iff_example : ((validate some branching).valid ≡ true) ↔ IsWellFormed some branching
validate-valid_iff_example = validate-valid_iff some branching
