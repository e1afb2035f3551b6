-- ===== src/Schema/Validation/Cycles/Links.antt =====
-- Entries and edges that are added to the graph, one at a time.
use ferris_cms.Prelude.{
  In-cases, eq-nil, ◌≡◌, refl, sym, ap, ◌∙◌, ◌↔◌, ◌⊎◌, inl, inr, ℕ, ◌+◌, ◌<◌, some, List, [], ◌∷◌,
  ◌++◌, Text, text_eq, text_eq_iff, In, In-append, Nodup, Nodup-snoc, Bool-cases, keys, lookup,
  In-keys-insert_key_iff, if◌then◌else◌, arith,
}
use ferris_cms.Schema.Validation.Cycles.{Graph, targets, raise, link}
use ferris_cms.Schema.Validation.Cycles.Counts.{count-snoc, count-nil, load, load-append, load_pos}
use ferris_cms.Schema.Validation.Cycles.Raised.{
  raised, lookup-raise, targets-insert_key, keys-raise, keys-raise_new, lookup-raise_zero,
  lookup-raise_new, raise-raise,
}

-- `g` has the edge from `n` to `m`.
abbrev pub Edge : Graph → Text → Text → Type 0
Edge g n m = In m (targets g.edges n)

abbrev pub Known : Graph → Text → Type 0
Known g n = In n (keys g.indegree)

pub record IsCounted (g : Graph) : Type 0 where
  pub distinct : Nodup (keys g.indegree)
  pub counted :
      (m : Text)
      → Known g m
      → lookup m g.indegree ≡ some (load (targets g.edges) m (keys g.indegree))
  pub sources : (n m : Text) → Edge g n m → Known g n
  pub closed : (n m : Text) → Edge g n m → Known g m

zero_of_not_pos : (n : ℕ) → ¬ (0 < n) → n ≡ 0
zero_of_not_pos n h = omega arith

-- One more edge from `name` to `dep` counts once.
module _ (adj adj' : Text → List Text) (name dep : Text)
    (same : (x : Text) → adj' x ≡ (if text_eq x name then adj name ++ dep ∷ [] else adj x)) where
  load-other : (m : Text) (ps : List Text) → ¬ In name ps → load adj' m ps ≡ load adj m ps
  unfolding load
  load-other m [] n = refl
  load-other m (p ∷ ps) n = elim (Bool-cases (text_eq p name)) [
    | inl e ↦ absurd (n (inl (sym ((text_eq_iff p name).0 e))))
    | inr e ↦ rw (same p, e) (omega (arith, load-other m ps (λ k. n (inr k))))
  ]

  load-push :
      (m : Text) (ps : List Text)
      → Nodup ps
      → In name ps
      → load adj' m ps ≡ load adj m ps + (if text_eq m dep then 1 else 0)
  unfolding load
  load-push m [] d h = absurd h
  load-push m (p ∷ ps) (f, d) h = elim (Bool-cases (text_eq p name)) [
    | inl e ↦
        let q : p ≡ name = (text_eq_iff p name).0 e in
        rw (same p, e, q)
          (omega (arith, count-snoc m dep (adj name), load-other m ps (λ k. f (rw q k))))
    | inr e ↦ elim h [
      | inl q ↦ absurd (cc (e, (text_eq_iff p name).1 (sym q)))
      | inr k ↦ rw (same p, e) (omega (arith, load-push m ps d k))
    ]
  ]

-- the graph with an entry for `n`, of 0 if it is new
abbrev pub entered : Graph → Text → Graph
entered g n = record g { indegree = raise n 0 g.indegree }

module _ (g : Graph) (c : IsCounted g) (n : Text) where
  entered_old : Known g n → IsCounted (entered g n)
  entered_old h =
      let k = keys-raise n 0 g.indegree h in
      record {
        distinct = rw k c.distinct;
        counted = λ m q. rw (lookup-raise_zero m n g.indegree h, k) (c.counted m (rw k at q));
        sources = λ a m q. rw k (c.sources a m q);
        closed = λ a m q. rw k (c.closed a m q);
      }

  -- A field without an entry has no edge from or to it.
  load_new : (m : Text) → ¬ Known g n → load (targets g.edges) m (n ∷ []) ≡ 0
  unfolding load
  load_new m h =
      rw (eq-nil (targets g.edges n) (λ x q. h (c.sources n x q))) (omega (arith, count-nil m))

  unloaded : ¬ Known g n → load (targets g.edges) n (keys g.indegree) ≡ 0
  unloaded h = zero_of_not_pos _ λ pos.
      let (p, _, q) = load_pos (targets g.edges) n (keys g.indegree) pos in h (c.closed p n q)

  entered_new : (¬ Known g n) → IsCounted (entered g n)
  entered_new h =
      let k = keys-raise_new n 0 g.indegree h in
      let more = λ (m : Text) (q : Known g m). (In-append m (keys g.indegree) (n ∷ [])).1 (inl q) in
      record {
        distinct = rw k (Nodup-snoc (keys g.indegree) n c.distinct h);
        counted = λ m q.
            let loads = load-append (targets g.edges) m (keys g.indegree) (n ∷ []) in
            let none_new = load_new m h in
            rw (lookup-raise_new m n 0 g.indegree h, k)
              (elim (Bool-cases (text_eq m n)) [
                | inl e ↦ rw e (
                    ap some (
                      rw ((text_eq_iff m n).0 e) (
                        omega (
                          arith,
                          load-append (targets g.edges) n (keys g.indegree) (n ∷ []),
                          load_new n h,
                          unloaded h,
                        ))))
                | inr e ↦ rw e (elim ((In-append m (keys g.indegree) (n ∷ [])).0 (rw k at q)) [
                  | inl old ↦ c.counted m old ∙ ap some (omega (arith, loads, none_new))
                  | inr (inl same) ↦ absurd (cc (e, (text_eq_iff m n).1 same))
                  | inr (inr x) ↦ absurd x
                ])
              ]);
        sources = λ a m q. rw k (more a (c.sources a m q));
        closed = λ a m q. rw k (more m (c.closed a m q));
      }

  pub entered-IsCounted : IsCounted (entered g n)
  entered-IsCounted = elim (In-cases n (keys g.indegree)) [
    | inl h ↦ entered_old h
    | inr h ↦ entered_new h
  ]

link-entered :
    (name dep : Text) (g : Graph)
    → link name dep (record g { indegree = raise dep 0 g.indegree }) ≡ link name dep g
unfolding link
link-entered name dep g = rw (raise-raise dep 1 g.indegree) refl

module _ (g : Graph) (name dep : Text) where
  pub Edge-link_iff :
      (n m : Text) → Edge (link name dep g) n m ↔ (Edge g n m ⊎ ((n ≡ name) × (m ≡ dep)))
  unfolding link
  Edge-link_iff n m = elim (Bool-cases (text_eq n name)) [
    | inl e ↦
        rw (targets-insert_key n name (targets g.edges name ++ dep ∷ []) g.edges, e)
          (ground (arith, (text_eq_iff n name).0 e, In-append m (targets g.edges name) (dep ∷ [])))
    | inr e ↦
        rw (targets-insert_key n name (targets g.edges name ++ dep ∷ []) g.edges, e)
          (ground (arith, text_eq_iff n name))
  ]

  pub Known-link_iff : (n : Text) → Known (link name dep g) n ↔ (Known g n ⊎ (n ≡ dep))
  unfolding link raise
  Known-link_iff n = In-keys-insert_key_iff n dep _ g.indegree

  module _ (c : IsCounted g) (h : Known g name) (k : Known g dep) where
    linked_count :
        (m : Text)
        → Known g m
        → lookup m (raise dep 1 g.indegree)
          ≡ some (load (targets (link name dep g).edges) m (keys g.indegree))
    unfolding link raised
    linked_count m q =
        let push =
          load-push (targets g.edges) (targets (link name dep g).edges) name dep
            (λ x. targets-insert_key x name (targets g.edges name ++ dep ∷ []) g.edges) m
            (keys g.indegree) c.distinct h in
        elim (Bool-cases (text_eq m dep)) [
          | inl e ↦
              rw
                (push, lookup-raise m dep 1 g.indegree, e, (text_eq_iff m dep).0 e, c.counted dep k)
                refl
          | inr e ↦
              rw (push, lookup-raise m dep 1 g.indegree, e, c.counted m q) (ap some (omega arith))
        ]

    linked_old : IsCounted (link name dep g)
    unfolding link
    linked_old =
        let same = keys-raise dep 1 g.indegree k in
        record {
          distinct = rw same c.distinct;
          counted = λ m q. rw same (linked_count m (rw same at q));
          sources = λ a m q. rw same (elim ((Edge-link_iff a m).0 q) [
            | inl old ↦ c.sources a m old
            | inr (e, _) ↦ rw e h
          ]);
          closed = λ a m q.
              rw same (elim ((Edge-link_iff a m).0 q) [
                | inl old ↦ c.closed a m old
                | inr (_, e) ↦ rw e k
              ]);
        }

pub Known-entered_iff :
    (g : Graph) (n x : Text)
    → Known (record g { indegree = raise n 0 g.indegree }) x ↔ (Known g x ⊎ (x ≡ n))
unfolding raise
Known-entered_iff g n x = In-keys-insert_key_iff x n _ g.indegree

pub link-IsCounted :
    (g : Graph) (name dep : Text) → IsCounted g → Known g name → IsCounted (link name dep g)
link-IsCounted g name dep c h =
    let known = Known-entered_iff g dep in
    rw (← link-entered name dep g) (
      linked_old (record g { indegree = raise dep 0 g.indegree }) name dep
        (entered-IsCounted g c dep) ((known name).1 (inl h)) ((known dep).1 (inr refl)))
