-- ===== src/Schema/Validation/Cycles/Sorted.antt =====
-- Which fields of a graph are reported: those that no order places.
use ferris_cms.Prelude.{
  length-keys, some_inj, ◌≡◌, ◌≢◌, refl, ap, sym, ◌∙◌, ◌↔◌, inl, inr, ℕ, ◌+◌, ◌<◌, Bool, true,
  false, some, List, [], Text, length, In, In-length-pos, Nodup, Assoc, keys, In-lookup, ltb,
  if◌then◌else◌, arith,
}
use ferris_cms.Schema.Validation.Cycles.{
  Graph, targets, Drain, free_fields, drained, positive, sort_texts, cyclic,
}
use ferris_cms.Schema.Validation.Cycles.Counts.{load, load_pos}
use ferris_cms.Schema.Validation.Cycles.Links.{IsCounted}
use ferris_cms.Schema.Validation.Cycles.Entries.{
  In-entry_iff, In-free_fields_iff, Nodup-free_fields, In-positive_iff, In-sort_texts_iff,
}
use ferris_cms.Schema.Validation.Cycles.Drained.{
  IsOrder, IsOrder-closed, IsDraining, drain-IsDraining,
}

-- What a `HashMap` promises of its iterator: each entry once, in some order.
abbrev pub IsIter : (Assoc ℕ → Assoc ℕ) → Type 0
IsIter iter =
    (m : Assoc ℕ)
    → ((e : Text × ℕ) → In e (iter m) ↔ In e m) × (Nodup (keys m) → Nodup (keys (iter m)))

ltb_of_lt : (a b : ℕ) → a < b → ltb a b ≡ true
ltb_of_lt a b h = ground arith

In-if : (n : Text) (b : Bool) (ns : List Text) → In n (if b then ns else []) → In n ns
In-if n true ns h = h
In-if n false ns h = absurd h

In-if_true :
    (n : Text) (b : Bool) (ns : List Text) → b ≡ true → In n ns → In n (if b then ns else [])
In-if_true n true ns e h = h
In-if_true n false ns e h = absurd (cc e)

pos_of_ne_zero : (n : ℕ) → (n ≢ 0) → 0 < n
pos_of_ne_zero n h = omega arith

module _ (iter : Assoc ℕ → Assoc ℕ) (fair : IsIter iter) (g : Graph) (c : IsCounted g) where
  abbrev pub fields : List Text
  fields = keys g.indegree

  abbrev pub adj : Text → List Text
  adj = targets g.edges

  abbrev start : Drain
  start = record { degrees = g.indegree; queue = free_fields (iter g.indegree) []; removed = 0 }

  start-IsDraining : IsDraining adj fields start fields []
  start-IsDraining =
      let (same, distinct) = fair g.indegree in
      record {
        keys_same = refl;
        distinct = c.distinct;
        known = λ n h. h;
        split = λ n h. inl h;
        apart = λ n h k. k;
        ordered = tt;
        degree = c.counted;
        queued = λ n.
            let entry = In-entry_iff n 0 g.indegree c.distinct in
            let free = In-free_fields_iff n (iter g.indegree) [] in
            (
              λ h. elim (free.0 h) [
                | inl k ↦ absurd k
                | inr k ↦
                    let found = entry.0 ((same (n, 0)).0 k) in
                    let i = In-lookup n g.indegree 0 found in
                    (i, some_inj _ _ (sym (c.counted n i) ∙ found))
              ],
              λ (i, z). free.1 (inr ((same (n, 0)).1 (entry.1 (c.counted n i ∙ ap some z)))),
            );
        once = Nodup-free_fields (iter g.indegree) [] (distinct c.distinct) tt (λ n h. absurd h);
        total = omega arith;
      }

  -- The fields split into an order of the removed ones and the others, which are reported.
  pub record IsSorted (order : List Text) : Type 0 where
    pub ordered : IsOrder adj fields order
    pub reported_iff : (n : Text) → In n (cyclic iter g) ↔ (In n fields × (¬ In n order))
    pub blocked :
        (n : Text) → In n (cyclic iter g) → (p : Text) × In p (cyclic iter g) × In n (adj p)

  module _ (left order : List Text) (d : IsDraining adj fields (drained iter g) left order)
      (empty : (drained iter g).queue ≡ []) where
    abbrev s : Drain
    s = drained iter g

    left_load : (n : Text) → In n left → 0 < load adj n left
    left_load n h = let queued = d.queued n in pos_of_ne_zero _ (λ z. rw empty at (queued.1 (h, z)))

    loaded_iff :
        (n : Text)
        → In n (sort_texts (positive (iter s.degrees))) ↔ (In n fields × (0 < load adj n left))
    loaded_iff n =
        let (same, _) = fair s.degrees in
        let sorted = In-sort_texts_iff n (positive (iter s.degrees)) in
        let pos = In-positive_iff n (iter s.degrees) in
        let distinct : Nodup (keys s.degrees) = rw d.keys_same c.distinct in
        (
          λ h.
              let (x, i, p) = pos.0 (sorted.0 h) in
              let found = (In-entry_iff n x s.degrees distinct).0 ((same (n, x)).0 i) in
              let known : In n fields = rw (d.keys_same) at (In-lookup n s.degrees x found) in
              let loads : load adj n left ≡ x = some_inj _ _ (sym (d.degree n known) ∙ found) in
              (known, omega arith),
          λ (i, p).
              let l = load adj n left in
              let entry = (In-entry_iff n l s.degrees distinct).1 (d.degree n i) in
              sorted.1 (pos.1 (l, (same (n, l)).1 entry, p)),
        )

    -- A removed field has no edge from those that are left.
    removed_free : (n : Text) → 0 < load adj n left → ¬ In n order
    removed_free n p h =
        let (m, k, e) = load_pos adj n left p in
        d.apart m k (IsOrder-closed adj fields order n m d.ordered h (d.known m k) e)

    some_left : (n : Text) → In n left → ltb s.removed (length s.degrees) ≡ true
    some_left n h =
        let many : length (keys s.degrees) ≡ length fields = ap length d.keys_same in
        let some_one = In-length-pos n left h in
        ltb_of_lt _ _ (omega (arith, d.total, many, length-keys s.degrees))

    cyclic_iff : (n : Text) → In n (cyclic iter g) ↔ (In n fields × (¬ In n order))
    unfolding cyclic
    cyclic_iff n = (
      λ h. let (i, p) = (loaded_iff n).0 (In-if n _ _ h) in (i, removed_free n p),
      λ (i, no_order). elim (d.split n i) [
        | inl h ↦ In-if_true n _ _ (some_left n h) ((loaded_iff n).1 (i, left_load n h))
        | inr h ↦ absurd (no_order h)
      ],
    )

    cyclic_blocked :
        (n : Text) → In n (cyclic iter g) → (p : Text) × In p (cyclic iter g) × In n (adj p)
    cyclic_blocked n h =
        let (i, free) = (cyclic_iff n).0 h in
        let waits : In n left = elim (d.split n i) [ inl w ↦ w | inr k ↦ absurd (free k) ] in
        let (p, k, e) = load_pos adj n left (left_load n waits) in
        (p, (cyclic_iff p).1 (d.known p k, d.apart p k), e)

  pub cyclic-IsSorted : (order : List Text) × IsSorted order
  unfolding drained
  cyclic-IsSorted =
      let (left, order, d, empty) =
        drain-IsDraining g.edges fields c.closed (length g.indegree + 1) start fields []
          (omega (arith, length-keys g.indegree)) start-IsDraining in
      (
        order,
        record {
          ordered = d.ordered;
          reported_iff = cyclic_iff left order d empty;
          blocked = cyclic_blocked left order d empty;
        },
      )
