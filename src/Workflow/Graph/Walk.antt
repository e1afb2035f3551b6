-- ===== src/Workflow/Graph/Walk.antt =====
-- The walks along `then` transitions, and what the loop of `execution_sequence` has to do with them.
use ferris_cms.Prelude.{
  ℕ, zero, suc, ◌+◌, ◌≡◌, ◌⊎◌, inl, inr, false, some, List, [], ◌∷◌, ◌++◌, get_elem?, Text,
  contains, text_eq_refl, Assoc, keys, lookup, In, In-lookup, Option-cases, arith,
}
use ferris_cms.Workflow.Model.{OwsDocument, task_names}
use ferris_cms.Workflow.Graph.{
  Next, name, directive, end_of_list, index_from, by_name, find_task, task_then, explicit_next,
  declared_next, next_task, set_insert, set_remove, Flow, enter, leave,
}

keys-index_from :
    (i : ℕ) (ns : List Text) (m : Assoc ℕ) (k : Text)
    → In k (keys (index_from i ns m))
    → In k ns ⊎ In k (keys m)
unfolding index_from
keys-index_from i [] m k h = inr h
keys-index_from i (n ∷ ns) m k h = ground (arith, keys-index_from (i + 1) ns ((n, i) ∷ m) k h)

In-get_elem? : (xs : List Text) (i : ℕ) (x : Text) → get_elem? xs i ≡ some x → In x xs
In-get_elem? [] i x h = cc
In-get_elem? (y ∷ xs) zero x h = inl (cc)
In-get_elem? (y ∷ xs) (suc i) x h = inr (In-get_elem? xs i x h)

module _ {V : Type 0} (doc : OwsDocument V) where
  explicit_next-In : (target n : Text) → explicit_next doc target ≡ name n → In n (task_names doc)
  unfolding explicit_next by_name
  explicit_next-In target n h =
      elim (Option-cases (lookup target (index_from 0 (task_names doc) []))) [
        | inl e ↦ ground arith
        | inr (idx, e) ↦
            ground (arith, keys-index_from 0 (task_names doc) [] target (In-lookup target _ idx e))
      ]

  declared_next-In : (t n : Text) → declared_next doc t ≡ name n → In n (task_names doc)
  unfolding declared_next
  declared_next-In t n h = elim (Option-cases (lookup t (by_name (task_names doc)))) [
    | inl e ↦ ground arith
    | inr (idx, e) ↦ ground (arith, In-get_elem? (task_names doc) (idx + 1) n)
  ]

  -- A transition leads to a declared task.
  pub next_task-In : (t n : Text) → next_task doc t ≡ name n → In n (task_names doc)
  unfolding next_task
  next_task-In t n h = elim (Option-cases (find_task doc t)) [
    | inl e ↦ ground (arith, declared_next-In t n)
    | inr (task, e) ↦ elim (Option-cases (task_then task)) [
      | inl e' ↦ ground (arith, declared_next-In t n)
      | inr (target, e') ↦ ground (arith, explicit_next-In target n)
    ]
  ]

-- A transition that ends the flow.
abbrev pub Stops : Next → Type 0
Stops (name _) = ⊥
Stops (directive _) = Unit
Stops end_of_list = Unit

-- The tasks in order from one task on, when those of the first list have been passed.
pub data Walk {V : Type 0} (doc : OwsDocument V) : List Text → Text → List Text → Type 0 where
  revisit : {v : List Text} {t : Text} → In t v → Walk doc v t []
  stop : {v : List Text} {t : Text} → ¬ In t v → Stops (next_task doc t) → Walk doc v t (t ∷ [])
  step :
      {v : List Text} {t : Text} {n : Text} {w : List Text}
      → ¬ In t v
      → next_task doc t ≡ name n
      → Walk doc (t ∷ v) n w
      → Walk doc v t (t ∷ w)

pub leave-enter :
    (t : Text) (s : Flow)
    → s.stack ≡ []
    → contains s.visited t ≡ false
    → leave t (enter t s)
      ≡ record { order = s.order ++ t ∷ []; visited = t ∷ s.visited; stack = [] }
unfolding leave enter set_insert set_remove contains
leave-enter t s e h = rw (e, h) (rw (text_eq_refl t))
