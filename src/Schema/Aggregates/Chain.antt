-- ===== src/Schema/Aggregates/Chain.antt =====
-- The search of `computed_field_has_relation_aggregate` finds an aggregate whenever there is one.
use ferris_cms.Prelude.{
  length-keys, ℕ, zero, suc, ◌<◌, ◌≡◌, refl, ◌↔◌, inl, inr, Bool, true, false, Option, some, List,
  [], ◌∷◌, any, Text, contains, contains_iff, keys, lookup, In-lookup, length, In, Nodup, unvisited,
  unvisited-cons_lt, unvisited_le, arith, Bool-cases, Option-cases,
}
use ferris_cms.Schema.Model.{Schema}
use ferris_cms.Schema.Expression.Ast.{Expr, columns, has_relation_aggregate}
use ferris_cms.Schema.Expression.Ast.Columns.{Mentions, columns-In_iff}
use ferris_cms.Schema.Aggregates.{expression_of, visit, computed_field_has_relation_aggregate}

module _ (p : Text → Bool) where
  any_true : (xs : List Text) → any p xs ≡ true → (x : Text) × In x xs × (p x ≡ true)
  any_true [] h = absurd (cc h)
  any_true (x ∷ xs) h = elim (Bool-cases (p x)) [
    | inl e ↦ (x, inl refl, e)
    | inr e ↦ let (y, m, q) = any_true xs (ground (arith, e, h)) in (y, inr m, q)
  ]

  any_of_In : (xs : List Text) (x : Text) → In x xs → p x ≡ true → any p xs ≡ true
  any_of_In [] x m q = absurd m
  any_of_In (y ∷ xs) x (inl e) q = ground (arith, e, q)
  any_of_In (y ∷ xs) x (inr m) q = ground (arith, any_of_In xs x m q)

module _ {V N : Type 0} (parse_f64 : Text → Option N) (schema : Schema V) where
  -- From the expression of `n` to that of the last name, each mentions the next name, and the last
  -- one has an aggregate over a relation.
  pub IsChain : Text → List Text → Type 0
  IsChain n [] =
      (e : Expr N) × (expression_of parse_f64 schema n ≡ some e) × (has_relation_aggregate e ≡ true)
  IsChain n (d ∷ ds) =
      (e : Expr N) × (expression_of parse_f64 schema n ≡ some e) × Mentions d e × IsChain d ds

  visit-IsChain :
      (fuel : ℕ) (n : Text) (visiting : List Text)
      → visit parse_f64 schema fuel n visiting ≡ true
      → (ds : List Text) × IsChain n ds
  unfolding visit IsChain
  visit-IsChain zero n visiting h = absurd (cc h)
  visit-IsChain (suc fuel) n visiting h = elim (Bool-cases (contains visiting n)) [
    | inl c ↦ absurd (cc (c, h))
    | inr c ↦ elim (Option-cases (expression_of parse_f64 schema n)) [
      | inl q ↦ absurd (cc (c, q, h))
      | inr (e, q) ↦ elim (Bool-cases (has_relation_aggregate e)) [
        | inl a ↦ ([], (e, q, a))
        | inr a ↦
            let (d, m, v) =
              any_true (λ d. visit parse_f64 schema fuel d (n ∷ visiting)) (columns e)
                (cc (c, q, a, h)) in
            let (ds, chain) = visit-IsChain fuel d (n ∷ visiting) v in
            (d ∷ ds, (e, q, ((columns-In_iff e).1 d).0 m, chain))
      ]
    ]
  ]

  expression_of-In :
      (n : Text) (e : Expr N)
      → expression_of parse_f64 schema n ≡ some e
      → In n (keys schema.attributes)
  unfolding expression_of
  expression_of-In n e q = elim (Option-cases (lookup n schema.attributes)) [
    | inl z ↦ absurd (cc (z, q))
    | inr (a, z) ↦ In-lookup n schema.attributes a z
  ]

  -- the chain from a name that stands in a chain
  suffix-IsChain :
      (n d : Text) (ds : List Text)
      → IsChain d ds
      → Nodup (d ∷ ds)
      → In n (d ∷ ds)
      → (rest : List Text) × IsChain n rest × Nodup (n ∷ rest)
  unfolding IsChain
  suffix-IsChain n d ds chain distinct (inl e) = (ds, rw e chain, rw e distinct)
  suffix-IsChain n d [] chain distinct (inr m) = absurd m
  suffix-IsChain n d (d' ∷ ds) chain distinct (inr m) = suffix-IsChain n d' ds chain.3 distinct.1 m

  -- A chain that comes back to a name can leave the detour out.
  shorten-IsChain :
      (n : Text) (ds : List Text)
      → IsChain n ds
      → (rest : List Text) × IsChain n rest × Nodup (n ∷ rest)
  unfolding IsChain
  shorten-IsChain n [] chain = ([], chain, (λ m. m, tt))
  shorten-IsChain n (d ∷ ds) (e, q, k, chain) =
      let (rest, short, distinct) = shorten-IsChain d ds chain in
      elim (Bool-cases (contains (d ∷ rest) n)) [
        | inl c ↦ suffix-IsChain n d rest short distinct ((contains_iff (d ∷ rest) n).0 c)
        | inr c ↦ (
          d ∷ rest,
          (e, q, k, short),
          (λ m. absurd (cc (c, (contains_iff (d ∷ rest) n).1 m)), distinct),
        )
      ]

  still_new :
      (n x : Text) (visiting ds : List Text)
      → ¬ In n ds
      → In x ds
      → contains visiting x ≡ false
      → contains (n ∷ visiting) x ≡ false
  still_new n x visiting ds apart m new = elim (Bool-cases (contains (n ∷ visiting) x)) [
    | inl c ↦ elim ((contains_iff (n ∷ visiting) x).0 c) [
      | inl e ↦ absurd (apart (rw (← e) m))
      | inr k ↦ absurd (cc (new, (contains_iff visiting x).1 k))
    ]
    | inr c ↦ c
  ]

  nothing_new : (x : Text) → contains [] x ≡ false
  unfolding contains
  nothing_new x = refl

  visit_of_IsChain :
      (fuel : ℕ) (n : Text) (ds visiting : List Text)
      → IsChain n ds
      → Nodup (n ∷ ds)
      → ((x : Text) → In x (n ∷ ds) → contains visiting x ≡ false)
      → unvisited visiting (keys schema.attributes) < fuel
      → visit parse_f64 schema fuel n visiting ≡ true
  unfolding visit IsChain
  visit_of_IsChain zero n ds visiting chain distinct new h = absurd (omega arith)
  visit_of_IsChain (suc fuel) n [] visiting (e, q, a) distinct new h =
      rw (new n (inl refl), q, a) refl
  visit_of_IsChain (suc fuel) n (d ∷ ds) visiting (e, q, k, chain) (apart, distinct) new h =
      let found =
        any_of_In (λ d. visit parse_f64 schema fuel d (n ∷ visiting)) (columns e) d
          (((columns-In_iff e).1 d).1 k)
          (visit_of_IsChain fuel d ds (n ∷ visiting) chain distinct
            (λ x m. still_new n x visiting (d ∷ ds) apart m (new x (inr m)))
            (omega (
              arith,
              unvisited-cons_lt n visiting (keys schema.attributes) (expression_of-In n e q)
                  (new n (inl refl)),
            ))) in
      elim (Bool-cases (has_relation_aggregate e)) [
        | inl a ↦ rw (new n (inl refl), q, a) refl
        | inr a ↦ rw (new n (inl refl), q, a) found
      ]

  -- A computed field is found to rest on a relation aggregate exactly when there is a chain from it,
  -- of fields whose expressions mention the next one, to a field whose expression has an aggregate.
  pub computed_field_has_relation_aggregate-eq-true_iff :
      (n : Text)
      → (computed_field_has_relation_aggregate parse_f64 schema n ≡ true)
        ↔ ((ds : List Text) × IsChain n ds)
  unfolding computed_field_has_relation_aggregate
  computed_field_has_relation_aggregate-eq-true_iff n = (
    λ h. visit-IsChain (suc (length schema.attributes)) n [] h,
    λ (ds, chain).
        let (rest, short, distinct) = shorten-IsChain n ds chain in
        visit_of_IsChain (suc (length schema.attributes)) n rest [] short distinct
          (λ x m. nothing_new x)
          (omega (arith, unvisited_le [] (keys schema.attributes), length-keys schema.attributes)),
  )
