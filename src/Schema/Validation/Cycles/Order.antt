-- ===== src/Schema/Validation/Cycles/Order.antt =====
-- Which computed fields are reported as circular.
use ferris_cms.Prelude.{
  eq-nil, ◌≡◌, refl, ap, ◌↔◌, ◌⊎◌, inl, inr, ℕ, true, Option, List, [], ◌∷◌, ◌++◌, Text, lit, In,
  Bool-cases, contains, contains_iff, Assoc, keys, lookup,
}
use ferris_cms.Schema.Model.{Attribute, Schema}
use ferris_cms.Schema.Validation.{FieldError}
use ferris_cms.Schema.Validation.Cycles.{
  Graph, targets, is_computed, build, cycle_errors, cyclic, detect_computed_cycles,
}
use ferris_cms.Schema.Validation.Cycles.Links.{IsCounted}
use ferris_cms.Schema.Validation.Cycles.Built.{
  empty_graph, empty_graph-IsCounted, IsField, build-IsCounted, Edge-build_iff, Known-build_of,
  Known-build_only, IsField-of_computed,
}
use ferris_cms.Schema.Validation.Cycles.Drained.{IsOrder}
use ferris_cms.Schema.Validation.Cycles.Sorted.{IsIter, IsSorted, cyclic-IsSorted}
use ferris_cms.Schema.Validation.Cycles.Reads.{Reads, In-parsed_deps_iff}

module _ {N : Type 0} (parse_f64 : Text → Option N) where
  module _ {V : Type 0} (attributes : Assoc (Attribute V)) where
    -- The computed field `n` depends on the computed field `m`: it declares it, or reads it.
    pub DependsOn : Text → Text → Type 0
    DependsOn n m =
        (a : Attribute V) × In (n, a) attributes
        × (a.computed ≡ true)
        × (In m a.dependencies ⊎ Reads parse_f64 a.expression m)
        × (is_computed attributes m ≡ true)

    -- Each field stands before the fields that depend on it, and these are all there.
    pub IsEvaluationOrder : List Text → Type 0
    IsEvaluationOrder [] = Unit
    IsEvaluationOrder (n ∷ ns) = ((p : Text) → DependsOn p n → In p ns) × IsEvaluationOrder ns

    IsField-of_DependsOn : (p n : Text) → DependsOn p n → IsField attributes p
    unfolding DependsOn
    IsField-of_DependsOn p n (a, i, c, _, _) = (a, i, c)

    abbrev graph : Graph
    graph = build parse_f64 attributes attributes empty_graph

    Edge-graph_iff : (n m : Text) → In m (targets graph.edges n) ↔ DependsOn n m
    unfolding DependsOn lookup
    Edge-graph_iff n m =
        let built = Edge-build_iff parse_f64 attributes attributes empty_graph n m in
        (
          λ h. elim (built.0 h) [
            | inl k ↦ absurd k
            | inr (a, i, c, k, d) ↦
                (a, i, c, (In-parsed_deps_iff parse_f64 m a.dependencies a.expression).0 k, d)
          ],
          λ (a, i, c, k, d).
              built.1 (
                inr (a, i, c, (In-parsed_deps_iff parse_f64 m a.dependencies a.expression).1 k, d)),
        )

    known_iff : (n : Text) → In n (keys graph.indegree) ↔ IsField attributes n
    known_iff n = (
      λ h. elim (Known-build_only parse_f64 attributes attributes empty_graph n h) [
        | inl k ↦ absurd k
        | inr (inl f) ↦ f
        | inr (inr c) ↦ IsField-of_computed attributes n c
      ],
      λ f. Known-build_of parse_f64 attributes attributes empty_graph n f,
    )

    IsOrder-iff :
        (ns : List Text)
        → IsOrder (targets graph.edges) (keys graph.indegree) ns ↔ IsEvaluationOrder ns
    unfolding IsEvaluationOrder
    IsOrder-iff [] = (λ h. tt, λ h. tt)
    IsOrder-iff (n ∷ ns) =
        let rest = IsOrder-iff ns in
        (
          λ (f, o). (
            λ p d. f p ((known_iff p).1 (IsField-of_DependsOn p n d)) ((Edge-graph_iff p n).1 d),
            rest.0 o,
          ),
          λ (f, o). (λ p k e. f p ((Edge-graph_iff p n).0 e), rest.1 o),
        )

    graph-IsCounted : IsCounted graph
    graph-IsCounted =
        build-IsCounted parse_f64 attributes attributes empty_graph empty_graph-IsCounted

    module _ (iter : Assoc ℕ → Assoc ℕ) (fair : IsIter iter) where
      abbrev reported : List Text
      reported = cyclic iter graph

      -- A field in an order is not reported: the one before it in the loop would be too.
      unordered :
          (order : List Text)
          → IsSorted iter fair graph graph-IsCounted order
          → (ns : List Text) (n : Text) → IsEvaluationOrder ns
          → In n ns
          → ¬ In n reported
      unfolding IsEvaluationOrder
      unordered order s [] n o h k = absurd h
      unordered order s (m ∷ ns) n (f, o) (inr h) k = unordered order s ns n o h k
      unordered order s (m ∷ ns) n (f, o) (inl q) k =
          let (p, r, e) = s.blocked n k in
          unordered order s ns p o (f p ((Edge-graph_iff p m).0 (rw q at e))) r

      reported_iff :
          (n : Text)
          → In n reported ↔ (
              IsField attributes n
              × (¬ ((order : List Text) × IsEvaluationOrder order × In n order)))
      reported_iff n =
          let (order, s) = cyclic-IsSorted iter fair graph graph-IsCounted in
          let member = s.reported_iff n in
          (
            λ h. ((known_iff n).0 (member.0 h).0, λ (ns, o, i). unordered order s ns n o i h),
            λ (f, none_has).
                member.1
                  ((known_iff n).1 f, λ i. none_has (order, (IsOrder-iff order).0 s.ordered, i)),
          )

      unreported_iff : (reported ≡ []) ↔ (
          (order : List Text) × IsEvaluationOrder order
          × ((n : Text) → IsField attributes n → In n order))
      unreported_iff =
          let (order, s) = cyclic-IsSorted iter fair graph graph-IsCounted in
          (
            λ h. (
              order,
              (IsOrder-iff order).0 s.ordered,
              λ n f. elim (Bool-cases (contains order n)) [
                | inl e ↦ (contains_iff order n).0 e
                | inr e ↦
                    let out : ¬ In n order = λ i. absurd (cc (e, (contains_iff order n).1 i)) in
                    absurd (rw h at ((s.reported_iff n).1 ((known_iff n).1 f, out)))
              ],
            ),
            λ (ns, o, all). eq-nil reported λ n h.
                unordered order s ns n o (all n ((known_iff n).0 ((s.reported_iff n).0 h).0)) h,
          )

-- the error on the field `n`
abbrev pub circular : Text → Text → FieldError
circular base n = record {
  path = base ++ (lit ".attributes." ++ n);
  code = lit "circular-dependency";
}

append_cancel : (xs ys zs : Text) → xs ++ ys ≡ xs ++ zs → ys ≡ zs
append_cancel [] ys zs h = h
append_cancel (x ∷ xs) ys zs h = append_cancel xs ys zs (cc h)

circular-inj : (base n m : Text) → circular base n ≡ circular base m → n ≡ m
circular-inj base n m h =
    append_cancel (lit ".attributes.") n m (append_cancel base _ _ (ap (λ e. e.path) h))

In-cycle_errors_iff :
    (base n : Text) (ns : List Text) → In (circular base n) (cycle_errors base ns) ↔ In n ns
unfolding cycle_errors
In-cycle_errors_iff base n [] = (λ h. h, λ h. h)
In-cycle_errors_iff base n (m ∷ ns) =
    let rest = In-cycle_errors_iff base n ns in
    (
      λ h. elim h [ inl e ↦ inl (circular-inj base n m e) | inr k ↦ inr (rest.0 k) ],
      λ h. elim h [ inl e ↦ inl (rw e refl) | inr k ↦ inr (rest.1 k) ],
    )

cycle_errors-empty_iff : (base : Text) (ns : List Text) → (cycle_errors base ns ≡ []) ↔ (ns ≡ [])
unfolding cycle_errors
cycle_errors-empty_iff base [] = (λ h. refl, λ h. refl)
cycle_errors-empty_iff base (n ∷ ns) = (λ h. absurd (cc h), λ h. absurd (cc h))

module _ {V N : Type 0} (parse_f64 : Text → Option N) (iter : Assoc ℕ → Assoc ℕ)
    (fair : IsIter iter) (schema : Schema V) (base : Text) where
  -- Whatever order the hash map is iterated in, the circular fields are reported exactly if no order
  -- of evaluation has all computed fields: one where each stands before those that depend on it.
  pub detect_computed_cycles-empty_iff :
      (detect_computed_cycles iter parse_f64 schema base ≡ []) ↔ (
        (order : List Text) × IsEvaluationOrder parse_f64 schema.attributes order
        × ((n : Text) → IsField schema.attributes n → In n order))
  unfolding detect_computed_cycles
  detect_computed_cycles-empty_iff =
      let names = unreported_iff parse_f64 schema.attributes iter fair in
      let errors =
        cycle_errors-empty_iff base
          (cyclic iter (build parse_f64 schema.attributes schema.attributes empty_graph)) in
      (λ h. names.0 (errors.0 h), λ o. errors.1 (names.1 o))

  -- The error stands on exactly the computed fields that no such order has.
  pub detect_computed_cycles-In_iff :
      (n : Text)
      → In (circular base n) (detect_computed_cycles iter parse_f64 schema base) ↔ (
          IsField schema.attributes n
          × (¬ (
              (order : List Text) × IsEvaluationOrder parse_f64 schema.attributes order
              × In n order)))
  unfolding detect_computed_cycles
  detect_computed_cycles-In_iff n =
      let names = reported_iff parse_f64 schema.attributes iter fair n in
      let errors =
        In-cycle_errors_iff base n
          (cyclic iter (build parse_f64 schema.attributes schema.attributes empty_graph)) in
      (λ h. names.0 (errors.0 h), λ o. errors.1 (names.1 o))
