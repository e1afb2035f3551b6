-- ===== src/Schema/Validation/Cycles/Linked.antt =====
-- The edges of a field that are added in a loop.
use ferris_cms.Prelude.{
  ◌≡◌, ◌↔◌, ◌⊎◌, inl, inr, Bool, true, false, List, [], ◌∷◌, Text, In, Bool-cases, Assoc,
  if◌then◌else◌, arith,
}
use ferris_cms.Schema.Model.{Attribute}
use ferris_cms.Schema.Validation.Cycles.{Graph, is_computed, link, link_all}
use ferris_cms.Schema.Validation.Cycles.Links.{
  Edge, Known, IsCounted, Edge-link_iff, Known-link_iff, link-IsCounted,
}

module _ {V : Type 0} (attributes : Assoc (Attribute V)) (name : Text) where
  pub link_all-IsCounted :
      (deps : List Text) (g : Graph)
      → IsCounted g
      → Known g name
      → IsCounted (link_all attributes name deps g)
  unfolding link_all
  link_all-IsCounted [] g c h = c
  link_all-IsCounted (d ∷ deps) g c h = elim (Bool-cases (is_computed attributes d)) [
    | inl e ↦ rw e (
        link_all-IsCounted deps (link name d g) (link-IsCounted g name d c h)
          ((Known-link_iff g name d name).1 (inl h)))
    | inr e ↦ rw e (link_all-IsCounted deps g c h)
  ]

  -- a round, where the test has the value `b`
  abbrev next : Bool → Text → Graph → Graph
  next b d g = if b then link name d g else g

  Edge-next_iff :
      (b : Bool) (d : Text) (g : Graph) (n m : Text)
      → Edge (next b d g) n m ↔ (Edge g n m ⊎ ((n ≡ name) × (m ≡ d) × (b ≡ true)))
  Edge-next_iff true d g n m = ground (arith, Edge-link_iff g name d n m)
  Edge-next_iff false d g n m = (λ h. inl h, λ h. elim h [ inl k ↦ k | inr k ↦ absurd (cc k.2) ])

  Known-next_iff :
      (b : Bool) (d : Text) (g : Graph) (n : Text)
      → Known (next b d g) n ↔ (Known g n ⊎ ((n ≡ d) × (b ≡ true)))
  Known-next_iff true d g n = ground (arith, Known-link_iff g name d n)
  Known-next_iff false d g n = (λ h. inl h, λ h. elim h [ inl k ↦ k | inr k ↦ absurd (cc k.1) ])

  -- The fields that an edge is made to.
  pub Edge-link_all_iff :
      (deps : List Text) (g : Graph) (n m : Text)
      → Edge (link_all attributes name deps g) n m
        ↔ (Edge g n m ⊎ ((n ≡ name) × In m deps × (is_computed attributes m ≡ true)))
  unfolding link_all
  Edge-link_all_iff [] g n m = (λ h. inl h, λ h. elim h [ inl k ↦ k | inr k ↦ absurd k.1 ])
  Edge-link_all_iff (d ∷ deps) g n m =
      let rest = Edge-link_all_iff deps (next (is_computed attributes d) d g) n m in
      let first = Edge-next_iff (is_computed attributes d) d g n m in
      (
        λ h. elim (rest.0 h) [
          | inl k ↦ elim (first.0 k) [ inl old ↦ inl old | inr (p, q, c) ↦ inr (p, inl q, rw q c) ]
          | inr (p, k, c) ↦ inr (p, inr k, c)
        ],
        λ h. elim h [
          | inl old ↦ rest.1 (inl (first.1 (inl old)))
          | inr (p, inl q, c) ↦ rest.1 (inl (first.1 (inr (p, q, rw q at c))))
          | inr (p, inr k, c) ↦ rest.1 (inr (p, k, c))
        ],
      )

  pub Known-link_all :
      (deps : List Text) (g : Graph) (n : Text)
      → Known g n
      → Known (link_all attributes name deps g) n
  unfolding link_all
  Known-link_all [] g n h = h
  Known-link_all (d ∷ deps) g n h =
      let b = is_computed attributes d in
      Known-link_all deps (next b d g) n ((Known-next_iff b d g n).1 (inl h))

  -- A field that gets an entry is computed.
  pub Known-link_all_only :
      (deps : List Text) (g : Graph) (n : Text)
      → Known (link_all attributes name deps g) n
      → Known g n ⊎ (is_computed attributes n ≡ true)
  unfolding link_all
  Known-link_all_only [] g n h = inl h
  Known-link_all_only (d ∷ deps) g n h =
      let b = is_computed attributes d in
      elim (Known-link_all_only deps (next b d g) n h) [
        | inl k ↦ elim ((Known-next_iff b d g n).0 k) [
          | inl old ↦ inl old
          | inr (q, c) ↦ inr (rw q c)
        ]
        | inr c ↦ inr c
      ]
