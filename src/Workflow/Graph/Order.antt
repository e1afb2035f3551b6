-- ===== src/Workflow/Graph/Order.antt =====
-- What `execution_sequence` returns.
use ferris_cms.Prelude.{
  unvisited, unvisited-cons_lt, ℕ, zero, suc, ◌<◌, ◌≡◌, refl, sym, ◌∙◌, inl, inr, false, some, List,
  [], ◌∷◌, ◌++◌, head?, Text, contains, contains_iff, In, Nodup, Bool-cases, arith, All,
}
use mathlib.Core.List.{append_assoc, append-nil}
use ferris_cms.Workflow.Model.{OwsDocument, task_names}
use ferris_cms.Workflow.Graph.{Next, name, directive, end_of_list, next_task, Flow, ok, follow}
use ferris_cms.Workflow.Graph.Walk.{Walk, revisit, stop, step, Stops, leave-enter, next_task-In}

absent : (t : Text) (v : List Text) → contains v t ≡ false → ¬ In t v
absent t v new k = cc ((contains_iff v t).1 k)

-- the state of the loop after it has passed one more task
abbrev passed : Text → Flow → Flow
passed t s = record { order = s.order ++ t ∷ []; visited = t ∷ s.visited; stack = [] }

module _ {V : Type 0} (doc : OwsDocument V) where
  no_stack : (t : Text) (s : Flow) → s.stack ≡ [] → contains s.stack t ≡ false
  unfolding contains
  no_stack t s e = rw e

  follow-passed :
      (fuel : ℕ) (t n : Text) (s : Flow)
      → s.stack ≡ []
      → contains s.visited t ≡ false
      → next_task doc t ≡ name n
      → follow doc (suc fuel) t s ≡ follow doc fuel n (passed t s)
  unfolding follow
  follow-passed fuel t n s e h k = ground (arith, leave-enter t s e h, no_stack t s e)

  follow-stopped :
      (fuel : ℕ) (t : Text) (s : Flow) (o : Next)
      → s.stack ≡ []
      → contains s.visited t ≡ false
      → next_task doc t ≡ o
      → Stops o
      → follow doc (suc fuel) t s ≡ ok (passed t s)
  unfolding follow
  follow-stopped fuel t s (name n) e h k q = absurd q
  follow-stopped fuel t s (directive d) e h k q =
      ground (arith, leave-enter t s e h, no_stack t s e)
  follow-stopped fuel t s end_of_list e h k q = ground (arith, leave-enter t s e h, no_stack t s e)

  -- The loop ends with as much fuel as there are names to visit, and passes a walk.
  pub follow_walks :
      (fuel : ℕ) (t : Text) (s : Flow)
      → s.stack ≡ []
      → In t (task_names doc)
      → unvisited s.visited (task_names doc) < fuel
      → (u : Flow) × (w : List Text) × (follow doc fuel t s ≡ ok u)
        × (u.order ≡ s.order ++ w)
        × Walk doc s.visited t w
  unfolding follow
  follow_walks zero t s e m h = absurd (omega arith)
  follow_walks (suc fuel) t s e m h = elim (Bool-cases (contains s.visited t)) [
    | inl old ↦ (s, [], ground arith, sym (append-nil _), revisit ((contains_iff _ _).0 old))
    | inr new ↦ go new (next_task doc t) refl (λ n k.
        follow_walks fuel n (passed t s) refl (next_task-In doc t n k)
          (omega (arith, unvisited-cons_lt t s.visited (task_names doc) m new)))
  ]
    where
      go :
          contains s.visited t ≡ false
          → (o : Next) → next_task doc t ≡ o
          → ((n : Text)
              → next_task doc t ≡ name n
              → (u : Flow) × (w : List Text) × (follow doc fuel n (passed t s) ≡ ok u)
                × (u.order ≡ (s.order ++ t ∷ []) ++ w)
                × Walk doc (t ∷ s.visited) n w)
          → (u : Flow) × (w : List Text) × (follow doc (suc fuel) t s ≡ ok u)
            × (u.order ≡ s.order ++ w)
            × Walk doc s.visited t w
      go new (name n) k rest =
          let (u, w, runs, order, walk) = rest n k in
          (
            u,
            t ∷ w,
            follow-passed fuel t n s e new k ∙ runs,
            order ∙ append_assoc s.order (t ∷ []) w,
            step (absent t s.visited new) k walk,
          )
      go new (directive d) k rest = (
        passed t s,
        t ∷ [],
        follow-stopped fuel t s (directive d) e new k tt,
        refl,
        stop (absent t s.visited new) (rw k tt),
      )
      go new end_of_list k rest = (
        passed t s,
        t ∷ [],
        follow-stopped fuel t s end_of_list e new k tt,
        refl,
        stop (absent t s.visited new) (rw k tt),
      )

-- The order goes on as the transitions say: the task after each is the next one, and the last one
-- has no next task, or one that stands in the order already.
abbrev pub Continues : Next → List Text → List Text → Type 0
Continues (name n) whole [] = In n whole
Continues (name n) whole (y ∷ w) = n ≡ y
Continues (directive _) whole w = w ≡ []
Continues end_of_list whole w = w ≡ []

module _ {V : Type 0} (doc : OwsDocument V) where
  abbrev pub IsFlow : List Text → List Text → Type 0
  IsFlow whole [] = Unit
  IsFlow whole (t ∷ w) = Continues (next_task doc t) whole w × IsFlow whole w

  Walk-fresh :
      {v : List Text} {t : Text} {w : List Text} → Walk doc v t w → (x : Text) → In x w → ¬ In x v
  Walk-fresh (revisit m) x k n = k
  Walk-fresh (stop fresh _) x (inl e) n = fresh (rw (← e) n)
  Walk-fresh (stop fresh _) x (inr k) n = k
  Walk-fresh (step fresh _ rest) x (inl e) n = fresh (rw (← e) n)
  Walk-fresh (step fresh _ rest) x (inr k) n = Walk-fresh rest x k (inr n)

  pub Walk-Nodup : {v : List Text} {t : Text} {w : List Text} → Walk doc v t w → Nodup w
  Walk-Nodup (revisit m) = tt
  Walk-Nodup (stop fresh _) = (λ e. e, tt)
  Walk-Nodup (step fresh _ rest) = (λ k. Walk-fresh rest _ k (inl refl), Walk-Nodup rest)

  pub Walk-In :
      {v : List Text} {t : Text} {w : List Text}
      → In t (task_names doc)
      → Walk doc v t w
      → All (λ x. In x (task_names doc)) w
  Walk-In m (revisit _) = tt
  Walk-In m (stop _ _) = (m, tt)
  Walk-In m (step {t} {n} _ k rest) = (m, Walk-In (next_task-In doc t n k) rest)

  Continues-stop : (o : Next) (whole : List Text) → Stops o → Continues o whole []
  Continues-stop (name n) whole s = absurd s
  Continues-stop (directive _) whole s = refl
  Continues-stop end_of_list whole s = refl

  Continues-Walk :
      {v : List Text} {n : Text} {w : List Text} (whole : List Text)
      → Walk doc v n w
      → ((x : Text) → In x v → In x whole)
      → Continues (name n) whole w
  Continues-Walk whole (revisit m) old = old _ m
  Continues-Walk whole (stop _ _) old = refl
  Continues-Walk whole (step _ _ _) old = refl

  pub Walk-IsFlow :
      {v : List Text} {t : Text} {w : List Text} (whole : List Text)
      → Walk doc v t w
      → ((x : Text) → In x v → In x whole)
      → ((x : Text) → In x w → In x whole)
      → IsFlow whole w
  Walk-IsFlow whole (revisit _) old new = tt
  Walk-IsFlow whole (stop {t} _ s) old new = (Continues-stop (next_task doc t) whole s, tt)
  Walk-IsFlow whole (step {v} {t} {n} {w} _ k rest) old new =
      let old' : ((x : Text) → In x (t ∷ v) → In x whole) =
        λ x m. elim m [ inl e ↦ new x (inl e) | inr o ↦ old x o ] in
      (rw k (Continues-Walk whole rest old'), Walk-IsFlow whole rest old' (λ x m. new x (inr m)))

  pub Walk-first : {t : Text} {w : List Text} → Walk doc [] t w → head? w ≡ some t
  Walk-first (revisit m) = absurd m
  Walk-first (stop _ _) = refl
  Walk-first (step _ _ _) = refl
