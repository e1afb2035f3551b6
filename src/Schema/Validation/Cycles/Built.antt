-- ===== src/Schema/Validation/Cycles/Built.antt =====
-- The graph of the computed fields has an edge from each to those that it depends on.
use ferris_cms.Prelude.{
  ◌≡◌, refl, ap, ◌↔◌, ◌⊎◌, inl, inr, Bool, true, false, Option, List, [], ◌∷◌, Text, In, Bool-cases,
  Assoc, lookup, text_eq, text_eq_iff, if◌then◌else◌, arith,
}
use ferris_cms.Schema.Model.{Attribute}
use ferris_cms.Schema.Validation.Cycles.{Graph, is_computed, link_all, parsed_deps, build}
use ferris_cms.Schema.Validation.Cycles.Links.{
  Edge, Known, IsCounted, entered, entered-IsCounted, Known-entered_iff,
}
use ferris_cms.Schema.Validation.Cycles.Linked.{
  link_all-IsCounted, Edge-link_all_iff, Known-link_all, Known-link_all_only,
}

abbrev pub empty_graph : Graph
empty_graph = record { edges = []; indegree = [] }

pub empty_graph-IsCounted : IsCounted empty_graph
unfolding lookup
empty_graph-IsCounted = record {
  distinct = tt;
  counted = λ m h. absurd h;
  sources = λ n m h. absurd h;
  closed = λ n m h. absurd h;
}

-- `n` names a computed field.
abbrev pub IsField : {V : Type 0} → Assoc (Attribute V) → Text → Type 0
IsField {V = V} rest n = (a : Attribute V) × In (n, a) rest × (a.computed ≡ true)

module _ {V : Type 0} where
  -- A field that a lookup finds has an entry.
  pub IsField-of_computed :
      (rest : Assoc (Attribute V)) (n : Text) → is_computed rest n ≡ true → IsField rest n
  unfolding is_computed
  IsField-of_computed [] n h = absurd (cc h)
  IsField-of_computed ((j, a) ∷ rest) n h = elim (Bool-cases (text_eq n j)) [
    | inl e ↦ (a, inl (rw ((text_eq_iff n j).0 e) refl), rw (e, is_computed, lookup) at h)
    | inr e ↦
        let (b, i, c) = IsField-of_computed rest n (rw (e, is_computed, lookup) at h) in
        (b, inr i, c)
  ]

module _ {V N : Type 0} (parse_f64 : Text → Option N) (attributes : Assoc (Attribute V)) where
  -- One of the computed fields `rest` has the name `n` and depends on the computed field `m`.
  abbrev pub Depends : Assoc (Attribute V) → Text → Text → Type 0
  Depends rest n m =
      (a : Attribute V) × In (n, a) rest
      × (a.computed ≡ true)
      × In m (parsed_deps parse_f64 a.dependencies a.expression)
      × (is_computed attributes m ≡ true)

  module _ (name : Text) (deps : List Text) (g : Graph) where
    -- a round of the loop, for a field that is computed or not
    abbrev round : Bool → Graph
    round computed = if computed then link_all attributes name deps (entered g name) else g

    round-IsCounted : (b : Bool) → IsCounted g → IsCounted (round b)
    round-IsCounted false c = c
    round-IsCounted true c =
        link_all-IsCounted attributes name deps (entered g name) (entered-IsCounted g c name)
          ((Known-entered_iff g name name).1 (inr refl))

    Edge-round_iff :
        (b : Bool) (n m : Text)
        → Edge (round b) n m
          ↔ (Edge g n m ⊎ ((b ≡ true) × (n ≡ name) × In m deps × (is_computed attributes m ≡ true)))
    Edge-round_iff true n m =
        ground (arith, Edge-link_all_iff attributes name deps (entered g name) n m)
    Edge-round_iff false n m = (λ h. inl h, λ h. elim h [ inl k ↦ k | inr k ↦ absurd (cc k.0) ])

    Known-round : (b : Bool) (n : Text) → Known g n → Known (round b) n
    Known-round true n h =
        Known-link_all attributes name deps (entered g name) n
          ((Known-entered_iff g name n).1 (inl h))
    Known-round false n h = h

    Known-round_self : (b : Bool) → b ≡ true → Known (round b) name
    Known-round_self true e =
        Known-link_all attributes name deps (entered g name) name
          ((Known-entered_iff g name name).1 (inr refl))
    Known-round_self false e = absurd (cc e)

    Known-round_only :
        (b : Bool) (n : Text)
        → Known (round b) n
        → Known g n ⊎ (((b ≡ true) × (n ≡ name)) ⊎ (is_computed attributes n ≡ true))
    Known-round_only true n h =
        elim (Known-link_all_only attributes name deps (entered g name) n h) [
          | inl k ↦ elim ((Known-entered_iff g name n).0 k) [
            | inl old ↦ inl old
            | inr e ↦ inr (inl (refl, e))
          ]
          | inr c ↦ inr (inr c)
        ]
    Known-round_only false n h = inl h

  abbrev deps_of : Attribute V → List Text
  deps_of a = parsed_deps parse_f64 a.dependencies a.expression

  pub build-IsCounted :
      (rest : Assoc (Attribute V)) (g : Graph)
      → IsCounted g
      → IsCounted (build parse_f64 attributes rest g)
  unfolding build
  build-IsCounted [] g c = c
  build-IsCounted ((name, a) ∷ rest) g c =
      build-IsCounted rest _ (round-IsCounted name (deps_of a) g a.computed c)

  pub Edge-build_iff :
      (rest : Assoc (Attribute V)) (g : Graph) (n m : Text)
      → Edge (build parse_f64 attributes rest g) n m ↔ (Edge g n m ⊎ Depends rest n m)
  unfolding build
  Edge-build_iff [] g n m = (λ h. inl h, λ h. elim h [ inl k ↦ k | inr k ↦ absurd k.1 ])
  Edge-build_iff ((name, a) ∷ rest) g n m =
      let later = Edge-build_iff rest (round name (deps_of a) g a.computed) n m in
      let now = Edge-round_iff name (deps_of a) g a.computed n m in
      (
        λ h. elim (later.0 h) [
          | inl k ↦ elim (now.0 k) [
            | inl old ↦ inl old
            | inr (c, e, i, d) ↦ inr (a, inl (rw e refl), c, i, d)
          ]
          | inr (b, i, c, d, f) ↦ inr (b, inr i, c, d, f)
        ],
        λ h. elim h [
          | inl old ↦ later.1 (inl (now.1 (inl old)))
          | inr (b, inl e, c, i, d) ↦
              let q : b ≡ a = ap (λ p. p.1) e in
              later.1 (inl (now.1 (inr (rw (← q) c, ap (λ p. p.0) e, rw (← q) i, d))))
          | inr (b, inr i, c, d, f) ↦ later.1 (inr (b, i, c, d, f))
        ],
      )

  pub Known-build :
      (rest : Assoc (Attribute V)) (g : Graph) (n : Text)
      → Known g n
      → Known (build parse_f64 attributes rest g) n
  unfolding build
  Known-build [] g n h = h
  Known-build ((name, a) ∷ rest) g n h =
      Known-build rest _ n (Known-round name (deps_of a) g a.computed n h)

  pub Known-build_of :
      (rest : Assoc (Attribute V)) (g : Graph) (n : Text)
      → IsField rest n
      → Known (build parse_f64 attributes rest g) n
  unfolding build
  Known-build_of [] g n (a, i, _) = absurd i
  Known-build_of ((name, a) ∷ rest) g n (b, inl e, c) =
      let q : b ≡ a = ap (λ p. p.1) e in
      let p : n ≡ name = ap (λ p. p.0) e in
      Known-build rest _ n (rw p (Known-round_self name (deps_of a) g a.computed (rw (← q) c)))
  Known-build_of ((name, a) ∷ rest) g n (b, inr i, c) = Known-build_of rest _ n (b, i, c)

  pub Known-build_only :
      (rest : Assoc (Attribute V)) (g : Graph) (n : Text)
      → Known (build parse_f64 attributes rest g) n
      → Known g n ⊎ (IsField rest n ⊎ (is_computed attributes n ≡ true))
  unfolding build
  Known-build_only [] g n h = inl h
  Known-build_only ((name, a) ∷ rest) g n h = elim (Known-build_only rest _ n h) [
    | inl k ↦ elim (Known-round_only name (deps_of a) g a.computed n k) [
      | inl old ↦ inl old
      | inr (inl (c, e)) ↦ inr (inl (a, inl (rw e refl), c))
      | inr (inr c) ↦ inr (inr c)
    ]
    | inr (inl (b, i, c)) ↦ inr (inl (b, inr i, c))
    | inr (inr c) ↦ inr (inr c)
  ]
