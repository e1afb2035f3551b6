-- ===== src/Workflow/Graph.antt =====
-- crates/workflow/src/graph.rs: the order in which the tasks of a document are run.
pub mod Walk
pub mod Order
pub mod Sequence
use ferris_cms.Prelude.{
  ℕ, zero, suc, ◌+◌, Bool, true, false, ◌||◌, Option, none, some, List, [], ◌∷◌, ◌++◌, length,
  get_elem?, Text, lit, text_eq, contains, Assoc, lookup, if◌then◌else◌,
}
use ferris_cms.Workflow.Model.{
  TaskDefinitionFields, SwitchCase, TaskDefinition, call, do_, emit, for, fork, listen, raise, run,
  set, switch, try, wait, OwsDocument, task_names, task_entries,
}

unfoldable pub is_directive : Text → Bool
unfolding text_eq
is_directive s = text_eq s (lit "exit") || text_eq s (lit "end") || text_eq s (lit "continue")

-- `Result<A, String>` of a loop that the model bounds by fuel
pub data Outcome {ℓ} (A : Type ℓ) : Type ℓ where
  ok : A → Outcome A
  err : Text → Outcome A
  out_of_fuel : Outcome A

-- The next task that a task flows to.
pub data Next : Type 0 where
  name : Text → Next
  directive : Text → Next
  end_of_list : Next

-- `iter().enumerate().map(|(i, n)| (n, i)).collect()`: a later index replaces an earlier one, so
-- the newest entry stands in front.
unfoldable pub index_from : ℕ → List Text → Assoc ℕ → Assoc ℕ
index_from i [] m = m
index_from i (n ∷ ns) m = index_from (i + 1) ns ((n, i) ∷ m)

unfoldable pub by_name : List Text → Assoc ℕ
unfolding index_from
by_name names = index_from 0 names []

-- every kind of task has common fields, so the result is always `Some`
unfoldable pub task_common : TaskDefinition → Option TaskDefinitionFields
task_common (call c _) = some c
task_common (do_ c) = some c
task_common (emit c) = some c
task_common (for c) = some c
task_common (fork c) = some c
task_common (listen c) = some c
task_common (raise c) = some c
task_common (run c) = some c
task_common (set c) = some c
task_common (switch c _) = some c
task_common (try c) = some c
task_common (wait c) = some c

-- `task_common(task).and_then(|c| c.then.clone())`
unfoldable pub task_then : TaskDefinition → Option Text
unfolding task_common
task_then task = elim (task_common task) [ some c ↦ c.then_to | none ↦ none ]

module _ {V : Type 0} (doc : OwsDocument V) where
  -- the first entry of that name
  unfoldable pub find_task : Text → Option TaskDefinition
  unfolding lookup
  find_task task = lookup task (task_entries doc.definition)

  unfoldable pub explicit_next : Text → Next
  explicit_next target =
      if is_directive target
      then directive target
      else elim (lookup target (by_name (task_names doc))) [
        | some _ ↦ name target
        | none ↦ end_of_list
      ]

  -- `names[idx + 1]` behind the test `idx + 1 < names.len()`
  unfoldable pub declared_next : Text → Next
  declared_next task = elim (lookup task (by_name (task_names doc))) [
    | some idx ↦ elim (get_elem? (task_names doc) (idx + 1)) [
      | some n ↦ name n
      | none ↦ end_of_list
    ]
    | none ↦ end_of_list
  ]

  unfoldable pub next_task : Text → Next
  unfolding explicit_next declared_next
  next_task task = elim (find_task task) [
    | some t ↦ elim (task_then t) [ some target ↦ explicit_next target | none ↦ declared_next task ]
    | none ↦ declared_next task
  ]

-- `HashSet::insert` and `HashSet::remove`
unfoldable pub set_insert : Text → List Text → List Text
set_insert x s = if contains s x then s else x ∷ s

unfoldable pub set_remove : Text → List Text → List Text
set_remove x [] = []
set_remove x (y ∷ s) = let rest = set_remove x s in if text_eq x y then rest else y ∷ rest

-- the variables of the `while` loop
pub record Flow : Type 0 where
  pub order : List Text
  pub visited : List Text
  pub stack : List Text

unfoldable pub enter : Text → Flow → Flow
unfolding set_insert
enter task s = record s { stack = set_insert task s.stack; order = s.order ++ task ∷ [] }

unfoldable pub leave : Text → Flow → Flow
unfolding set_insert set_remove
leave task s = record s { stack = set_remove task s.stack; visited = set_insert task s.visited }

abbrev pub cycle_message : Text → Text
cycle_message task = lit "workflow flow contains a cycle at task '" ++ (task ++ lit "'")

module _ {V : Type 0} (doc : OwsDocument V) where
  -- `while let Some(name) = current.take()`
  unfoldable pub follow : ℕ → Text → Flow → Outcome Flow
  follow zero task s = out_of_fuel
  follow (suc fuel) task s = elim (contains s.visited task) [
    | true ↦ ok s
    | false ↦ elim (contains s.stack task) [
      | true ↦ err (cycle_message task)
      | false ↦ elim (next_task doc task) [
        | name n ↦ follow fuel n (leave task (enter task s))
        | directive _ ↦ ok (leave task (enter task s))
        | end_of_list ↦ ok (leave task (enter task s))
      ]
    ]
  ]

-- the loop over the tasks that the flow has not reached
unfoldable pub push_missing : List Text → List Text → List Text
push_missing order [] = order
push_missing order (n ∷ names) =
    push_missing (if contains order n then order else order ++ n ∷ []) names

abbrev pub no_flow : Flow
no_flow = record { order = []; visited = []; stack = [] }

abbrev finish : List Text → Outcome Flow → Outcome (List Text)
finish names (ok s) = ok (push_missing s.order names)
finish names (err e) = err e
finish names out_of_fuel = out_of_fuel

abbrev pub sequence_of : {V : Type 0} → OwsDocument V → List Text → Outcome (List Text)
sequence_of doc [] = ok []
sequence_of doc (first ∷ names) =
    finish (first ∷ names) (follow doc (suc (length (first ∷ names))) first no_flow)

unfoldable pub execution_sequence : {V : Type 0} → OwsDocument V → Outcome (List Text)
execution_sequence doc = sequence_of doc (task_names doc)

-- `referenced_tasks`: the targets of `then`, directives left out
abbrev pub push_target : Option Text → List Text → List Text
push_target none out = out
push_target (some target) out = if is_directive target then out else out ++ target ∷ []

unfoldable pub case_targets : List (Assoc SwitchCase) → List Text → List Text
case_targets [] out = out
case_targets ([] ∷ es) out = case_targets es out
case_targets (((_, case) ∷ _) ∷ es) out = case_targets es (push_target case.then_to out)

unfoldable pub task_targets : TaskDefinition → List Text → List Text
unfolding case_targets task_then
task_targets (switch c cases) out = case_targets cases (push_target c.then_to out)
task_targets task out = push_target (task_then task) out

unfoldable pub targets_of : Assoc TaskDefinition → List Text → List Text
unfolding task_targets
targets_of [] out = out
targets_of ((_, task) ∷ entries) out = targets_of entries (task_targets task out)

unfoldable pub referenced_tasks : {V : Type 0} → OwsDocument V → List Text
unfolding targets_of
referenced_tasks doc = targets_of (task_entries doc.definition) []
