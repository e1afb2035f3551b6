-- ===== src/Workflow/Graph/Sequence.antt =====
-- The order that `execution_sequence` returns: it always returns one.
use ferris_cms.Prelude.{
  unvisited_le, suc, ◌≡◌, refl, sym, ap, ◌∙◌, ◌↔◌, ◌⊎◌, inl, inr, some, List, [], ◌∷◌, ◌++◌, length,
  head?, Text, contains, contains_iff, In, In-append, Nodup, Nodup-snoc, Bool-cases, List-cases,
  All-In, arith, All,
}
use mathlib.Core.Path.{subst}
use mathlib.Core.List.{append_assoc, append-nil}
use ferris_cms.Workflow.Model.{OwsDocument, task_names}
use ferris_cms.Workflow.Graph.{ok, no_flow, push_missing, sequence_of, execution_sequence}
use ferris_cms.Workflow.Graph.Order.{
  IsFlow, follow_walks, Walk-Nodup, Walk-In, Walk-IsFlow, Walk-first,
}

push_missing-append :
    (order names : List Text) → (rest : List Text) × (push_missing order names ≡ order ++ rest)
unfolding push_missing
push_missing-append order [] = ([], sym (append-nil order))
push_missing-append order (n ∷ names) = elim (Bool-cases (contains order n)) [
  | inl old ↦ let (rest, e) = push_missing-append order names in (rest, rw old e)
  | inr new ↦
      let (rest, e) = push_missing-append (order ++ n ∷ []) names in
      (n ∷ rest, rw new (e ∙ append_assoc order (n ∷ []) rest))
]

In-push_missing :
    (order names : List Text) (x : Text)
    → In x (push_missing order names) ↔ (In x order ⊎ In x names)
unfolding push_missing
In-push_missing order [] x = (inl, λ h. elim h [ inl m ↦ m | inr k ↦ absurd k ])
In-push_missing order (n ∷ names) x = elim (Bool-cases (contains order n)) [
  | inl old ↦ ground (arith, In-push_missing order names x, (contains_iff order n).0 old)
  | inr new ↦ ground (arith, In-push_missing (order ++ n ∷ []) names x, In-append x order (n ∷ []))
]

Nodup-push_missing : (order names : List Text) → Nodup order → Nodup (push_missing order names)
unfolding push_missing
Nodup-push_missing order [] d = d
Nodup-push_missing order (n ∷ names) d = elim (Bool-cases (contains order n)) [
  | inl old ↦ rw old (Nodup-push_missing order names d)
  | inr new ↦ rw new (
      Nodup-push_missing (order ++ n ∷ []) names
        (Nodup-snoc order n d (λ m. cc ((contains_iff order n).1 m))))
]

module _ {V : Type 0} (doc : OwsDocument V) where
  -- The sequence is the walk, and then the names that are missing from it.
  sequence_of-walk :
      (first : Text) (names : List Text)
      → task_names doc ≡ first ∷ names
      → (w : List Text) × (sequence_of doc (first ∷ names) ≡ ok (push_missing w (first ∷ names)))
        × (head? w ≡ some first)
        × IsFlow doc w w
        × Nodup w
        × All (λ x. In x (task_names doc)) w
  sequence_of-walk first names e =
      let m : In first (task_names doc) = rw e (inl refl) in
      let (u, w, runs, order, walk) =
        follow_walks doc (suc (length (first ∷ names))) first no_flow refl m
          (rw e (omega (arith, unvisited_le [] (first ∷ names)))) in
      (
        w,
        ground (arith, runs, order),
        Walk-first doc walk,
        Walk-IsFlow doc w walk (λ x k. absurd k) (λ x k. k),
        Walk-Nodup doc walk,
        Walk-In doc m walk,
      )

  -- A document with a task has an order: it begins with a flow from the first declared task, in
  -- which each task is followed by the one that `next_task` names until none is named or the named
  -- one stands in the flow already, and all in all it lists each declared task exactly once and
  -- nothing else.
  pub execution_sequence-order :
      (first : Text) (names : List Text)
      → task_names doc ≡ first ∷ names
      → (w : List Text) × (rest : List Text) × (execution_sequence doc ≡ ok (w ++ rest))
        × (head? w ≡ some first)
        × IsFlow doc w w
        × Nodup (w ++ rest)
        × ((x : Text) → In x (w ++ rest) ↔ In x (task_names doc))
  unfolding execution_sequence
  execution_sequence-order first names e =
      let (w, runs, head, flow, distinct, declared) = sequence_of-walk first names e in
      let (rest, split) = push_missing-append w (first ∷ names) in
      (
        w,
        rest,
        rw e (runs ∙ ap ok split),
        head,
        flow,
        rw (← split) (Nodup-push_missing w (first ∷ names) distinct),
        λ x.
            rw (← split, e)
              (
                λ m. elim ((In-push_missing w (first ∷ names) x).0 m) [
                  | inl k ↦ subst (In x) e (All-In _ w declared x k)
                  | inr k ↦ k
                ],
                λ m. (In-push_missing w (first ∷ names) x).1 (inr m),
              ),
      )

  -- Whatever the document, `execution_sequence` ends with an order: it never reports a cycle.
  pub execution_sequence_returns : (order : List Text) × (execution_sequence doc ≡ ok order)
  unfolding execution_sequence
  execution_sequence_returns = elim (List-cases (task_names doc)) [
    | inl e ↦ ([], rw e refl)
    | inr (first, names, e) ↦
        let (w, runs, _, _, _, _) = sequence_of-walk first names e in
        (push_missing w (first ∷ names), rw e runs)
  ]
