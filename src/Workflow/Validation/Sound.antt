-- ===== src/Workflow/Validation/Sound.antt =====
-- When a document is valid.
use ferris_cms.Prelude.{
  ◌≡◌, refl, ◌↔◌, ◌≢◌, ◌⊎◌, inl, inr, true, Option, none, some, List, [], ◌∷◌, ◌++◌, is_empty, Text,
  contains_iff, text_eq, In, Bool-cases, arith, All, Assoc,
}
use ferris_cms.Workflow.Model.{
  SwitchCase, TaskDefinition, call, do_, emit, for, fork, listen, raise, run, set, switch, try,
  wait, EventFilter, OwsDocument, is_trigger_event, is_known, task_names, task_entries,
}
use ferris_cms.Workflow.Graph.{
  execution_sequence, is_directive, task_then, push_target, case_targets, task_targets, targets_of,
  referenced_tasks,
}
use ferris_cms.Workflow.Graph.Sequence.{execution_sequence_returns}
use ferris_cms.Workflow.Validation.{
  empty_issues, target_issues, case_issues, task_issues, entry_issues, reference_issues, event_type,
  type_issues, event_issues, schedule_filters, cycle_issues, validate,
}

-- What a transition may name: nothing, a directive, or a declared task.
abbrev pub IsTransition : List Text → Option Text → Type 0
IsTransition names none = Unit
IsTransition names (some target) = (is_directive target ≡ true) ⊎ In target names

-- What a case of a switch may name: nothing, or a declared task.
abbrev pub IsCaseTarget : List Text → Option Text → Type 0
IsCaseTarget names none = Unit
IsCaseTarget names (some target) = In target names

abbrev pub AreCases : List Text → List (Assoc SwitchCase) → Type 0
AreCases names [] = Unit
AreCases names ([] ∷ es) = AreCases names es
AreCases names (((_, case) ∷ _) ∷ es) = IsCaseTarget names case.then_to × AreCases names es

-- A task calls a known function, and goes on to a declared task.
abbrev pub IsTask : List Text → TaskDefinition → Type 0
IsTask names (call c function) = (is_known function ≡ true) × IsTransition names c.then_to
IsTask names (switch c cases) = AreCases names cases × IsTransition names c.then_to
IsTask names task = IsTransition names (task_then task)

abbrev pub AreTasks : List Text → Assoc TaskDefinition → Type 0
AreTasks names [] = Unit
AreTasks names ((_, task) ∷ entries) = IsTask names task × AreTasks names entries

-- An event filter with a textual type has one of the trigger events.
abbrev pub IsEvent : Option Text → Type 0
IsEvent none = Unit
IsEvent (some ty) = is_trigger_event ty ≡ true

module _ {V : Type 0} (as_str : V → Option Text) (doc : OwsDocument V) where
  pub record IsWellFormed : Type 0 where
    pub has_task : task_names doc ≢ []
    pub tasks : AreTasks (task_names doc) (task_entries doc.definition)
    pub events : All (λ f. IsEvent (event_type as_str f)) (schedule_filters doc.definition.schedule)

is_empty-append :
    {A : Type 0} (xs ys : List A)
    → (is_empty (xs ++ ys) ≡ true) ↔ ((is_empty xs ≡ true) × (is_empty ys ≡ true))
is_empty-append [] ys = (λ h. (refl, h), λ h. h.1)
is_empty-append (x ∷ xs) ys = (λ h. cc, λ h. cc)

-- `IsReferenced names out`: every text of the list is declared
abbrev Declared : List Text → List Text → Type 0
Declared names = All (λ x. In x names)

Declared-append :
    (names xs ys : List Text) → Declared names (xs ++ ys) ↔ (Declared names xs × Declared names ys)
Declared-append names [] ys = (λ h. (tt, h), λ h. h.1)
Declared-append names (x ∷ xs) ys = ground (arith, Declared-append names xs ys)

Declared-push_target :
    (names : List Text) (o : Option Text) (out : List Text)
    → Declared names (push_target o out) ↔ (Declared names out × IsTransition names o)
Declared-push_target names none out = (λ h. (h, tt), λ h. h.0)
Declared-push_target names (some target) out = elim (Bool-cases (is_directive target)) [
  | inl e ↦ ground (arith, e)
  | inr e ↦ ground (arith, e, Declared-append names out (target ∷ []))
]

reference_issues_iff :
    (names xs : List Text) → (is_empty (reference_issues names xs) ≡ true) ↔ Declared names xs
unfolding reference_issues
reference_issues_iff names [] = (λ _. tt, λ _. refl)
reference_issues_iff names (x ∷ xs) =
    ground (arith, contains_iff names x, reference_issues_iff names xs)

-- An empty target passes the test of the switch, but it is no directive, so it must be declared.
target_issues_iff :
    (name : Text) (names : List Text) (o : Option Text)
    → ((is_empty (target_issues name names o) ≡ true) × IsTransition names o) ↔ IsCaseTarget names o
unfolding is_directive text_eq
target_issues_iff name names none = (λ _. tt, λ _. (refl, tt))
target_issues_iff name names (some []) = ground (arith, contains_iff names [])
target_issues_iff name names (some (c ∷ target)) = ground (arith, contains_iff names (c ∷ target))

case_issues_iff :
    (name : Text) (names : List Text) (es : List (Assoc SwitchCase)) (out : List Text)
    → ((is_empty (case_issues name names es) ≡ true) × Declared names (case_targets es out))
      ↔ (Declared names out × AreCases names es)
unfolding case_issues case_targets
case_issues_iff name names [] out = (λ h. (h.1, tt), λ h. (refl, h.0))
case_issues_iff name names ([] ∷ es) out = case_issues_iff name names es out
case_issues_iff name names (((_, case) ∷ _) ∷ es) out = ground (
  arith,
  is_empty-append (target_issues name names case.then_to) (case_issues name names es),
  case_issues_iff name names es (push_target case.then_to out),
  Declared-push_target names case.then_to out,
  target_issues_iff name names case.then_to,
)

task_issues_iff :
    (name : Text) (names : List Text) (task : TaskDefinition) (out : List Text)
    → ((is_empty (task_issues name names task) ≡ true) × Declared names (task_targets task out))
      ↔ (Declared names out × IsTask names task)
unfolding task_targets task_then task_issues
task_issues_iff name names (call c f) out = ground (arith, Declared-push_target names c.then_to out)
task_issues_iff name names (switch c cases) out = ground (
  arith,
  case_issues_iff name names cases (push_target c.then_to out),
  Declared-push_target names c.then_to out,
)
task_issues_iff name names (do_ c) out = ground (arith, Declared-push_target names c.then_to out)
task_issues_iff name names (emit c) out = ground (arith, Declared-push_target names c.then_to out)
task_issues_iff name names (for c) out = ground (arith, Declared-push_target names c.then_to out)
task_issues_iff name names (fork c) out = ground (arith, Declared-push_target names c.then_to out)
task_issues_iff name names (listen c) out = ground (arith, Declared-push_target names c.then_to out)
task_issues_iff name names (raise c) out = ground (arith, Declared-push_target names c.then_to out)
task_issues_iff name names (run c) out = ground (arith, Declared-push_target names c.then_to out)
task_issues_iff name names (set c) out = ground (arith, Declared-push_target names c.then_to out)
task_issues_iff name names (try c) out = ground (arith, Declared-push_target names c.then_to out)
task_issues_iff name names (wait c) out = ground (arith, Declared-push_target names c.then_to out)

entry_issues_iff :
    (names : List Text) (entries : Assoc TaskDefinition) (out : List Text)
    → ((is_empty (entry_issues names entries) ≡ true) × Declared names (targets_of entries out))
      ↔ (Declared names out × AreTasks names entries)
unfolding entry_issues targets_of
entry_issues_iff names [] out = (λ h. (h.1, tt), λ h. (refl, h.0))
entry_issues_iff names ((name, task) ∷ entries) out = ground (
  arith,
  is_empty-append (task_issues name names task) (entry_issues names entries),
  entry_issues_iff names entries (task_targets task out),
  task_issues_iff name names task out,
)

module _ {V : Type 0} (as_str : V → Option Text) where
  event_issues_iff :
      (fs : List (EventFilter V))
      → (is_empty (event_issues as_str fs) ≡ true) ↔ All (λ f. IsEvent (event_type as_str f)) fs
  unfolding event_issues
  event_issues_iff [] = (λ _. tt, λ _. refl)
  event_issues_iff (f ∷ fs) = ground (
    arith,
    event_issues_iff fs,
    is_empty-append (type_issues as_str (event_type as_str f)) (event_issues as_str fs),
  )

  no_cycle : (doc : OwsDocument V) → is_empty (cycle_issues (execution_sequence doc)) ≡ true
  unfolding cycle_issues
  no_cycle doc = let (order, e) = execution_sequence_returns doc in rw e refl

  has_task_iff : (names : List Text) → (is_empty (empty_issues names) ≡ true) ↔ (names ≢ [])
  unfolding empty_issues
  has_task_iff [] = ground arith
  has_task_iff (n ∷ names) = ground arith

  -- A document is valid exactly when it has a task, each of its calls is of a known function, each
  -- `then` of a task names a directive or a declared task, each `then` of a switch case names a
  -- declared task, and each event filter of its schedule with a textual type has a trigger event.
  pub validate-valid_iff :
      (doc : OwsDocument V) → ((validate as_str doc).valid ≡ true) ↔ IsWellFormed as_str doc
  unfolding validate referenced_tasks
  validate-valid_iff doc =
      let names = task_names doc in
      let fs = schedule_filters doc.definition.schedule in
      let a = empty_issues names in
      let b = entry_issues names (task_entries doc.definition) in
      let c = reference_issues names (referenced_tasks doc) in
      let d = event_issues as_str fs in
      let e = cycle_issues (execution_sequence doc) in
      ground (
        arith,
        is_empty-append a (b ++ (c ++ (d ++ e))),
        is_empty-append b (c ++ (d ++ e)),
        is_empty-append c (d ++ e),
        is_empty-append d e,
        has_task_iff names,
        entry_issues_iff names (task_entries doc.definition) [],
        reference_issues_iff names (referenced_tasks doc),
        event_issues_iff fs,
        no_cycle doc,
      )
