-- ===== src/Schema/Validation/Cycles/Entries.antt =====
-- The entries of a map with distinct keys, the initial queue, and the sorted names.
use ferris_cms.Prelude.{
  ◌≡◌, refl, ap, sym, ◌↔◌, ◌⊎◌, inl, inr, ℕ, ◌<◌, some, List, [], ◌∷◌, Text, In, Nodup, Bool-cases,
  Assoc, keys, lookup, text_eq, text_eq_iff, ◌==◌, ltb, if◌then◌else◌, arith,
}
use ferris_cms.Schema.Validation.Cycles.{free_fields, positive, insert_text, sort_texts}

In-keys : (n : Text) (d : ℕ) (m : Assoc ℕ) → In (n, d) m → In n (keys m)
In-keys n d [] h = absurd h
In-keys n d ((j, e) ∷ m) (inl q) = inl (ap (λ p. p.0) q)
In-keys n d ((j, e) ∷ m) (inr h) = inr (In-keys n d m h)

-- The entries of a map with distinct keys are those that a lookup finds.
pub In-entry_iff :
    (n : Text) (d : ℕ) (m : Assoc ℕ) → Nodup (keys m) → In (n, d) m ↔ (lookup n m ≡ some d)
unfolding lookup
In-entry_iff n d [] u = (λ h. absurd h, λ h. absurd (cc h))
In-entry_iff n d ((j, e) ∷ m) (f, u) = elim (Bool-cases (text_eq n j)) [
  | inl q ↦
      let same : n ≡ j = (text_eq_iff n j).0 q in
      rw (q, lookup)
        (
          λ h. elim h [
            | inl p ↦ ap (λ x. some x.1) (sym p)
            | inr k ↦ absurd (f (rw same at (In-keys n d m k)))
          ],
          λ h. inl (cc (same, h)),
        )
  | inr q ↦
      let rest = In-entry_iff n d m u in
      rw (q, lookup)
        (
          λ h. elim h [
            | inl p ↦ absurd (cc (q, (text_eq_iff n j).1 (ap (λ x. x.0) p)))
            | inr k ↦ rest.0 k
          ],
          λ h. inr (rest.1 h),
        )
]

-- a round of the loop that fills the queue
In-free_iff :
    (n j : Text) (d : ℕ) (queue : List Text)
    → In n (if d == 0 then j ∷ queue else queue) ↔ (In n queue ⊎ (◌≡◌ {A = Text × ℕ} (n, 0) (j, d)))
In-free_iff n j d queue = ground arith

pub In-free_fields_iff :
    (n : Text) (m : Assoc ℕ) (queue : List Text)
    → In n (free_fields m queue) ↔ (In n queue ⊎ In (n, 0) m)
unfolding free_fields
In-free_fields_iff n [] queue = (λ h. inl h, λ h. elim h [ inl k ↦ k | inr k ↦ absurd k ])
In-free_fields_iff n ((j, d) ∷ m) queue =
    let rest = In-free_fields_iff n m (if d == 0 then j ∷ queue else queue) in
    let now = In-free_iff n j d queue in
    (
      λ h. elim (rest.0 h) [
        | inl k ↦ elim (now.0 k) [ inl old ↦ inl old | inr e ↦ inr (inl e) ]
        | inr k ↦ inr (inr k)
      ],
      λ h. elim h [
        | inl old ↦ rest.1 (inl (now.1 (inl old)))
        | inr (inl e) ↦ rest.1 (inl (now.1 (inr e)))
        | inr (inr k) ↦ rest.1 (inr k)
      ],
    )

pub Nodup-free_fields :
    (m : Assoc ℕ) (queue : List Text)
    → Nodup (keys m)
    → Nodup queue
    → ((n : Text) → In n queue → ¬ In n (keys m))
    → Nodup (free_fields m queue)
unfolding free_fields
Nodup-free_fields [] queue u v f = v
Nodup-free_fields ((j, d) ∷ m) queue (h, u) v f = elim (Bool-cases (d == 0)) [
  | inl e ↦ rw e (
      Nodup-free_fields m (j ∷ queue) u ((λ k. f j k (inl refl)), v)
        (λ n k i. elim k [ inl q ↦ h (rw q at i) | inr l ↦ f n l (inr i) ]))
  | inr e ↦ rw e (Nodup-free_fields m queue u v (λ n k i. f n k (inr i)))
]

pub In-positive_iff :
    (n : Text) (m : Assoc ℕ) → In n (positive m) ↔ ((d : ℕ) × In (n, d) m × (0 < d))
unfolding positive
In-positive_iff n [] = (λ h. absurd h, λ h. absurd h.1)
In-positive_iff n ((j, d) ∷ m) =
    let rest = In-positive_iff n m in
    elim (Bool-cases (ltb 0 d)) [
      | inl e ↦ rw e (
        λ h. elim h [
          | inl q ↦ (d, inl (rw q refl), ground (arith, e))
          | inr k ↦ let (x, i, pos) = rest.0 k in (x, inr i, pos)
        ],
        λ (x, i, pos). elim i [ inl q ↦ inl (ap (λ z. z.0) q) | inr k ↦ inr (rest.1 (x, k, pos)) ],
      )
      | inr e ↦ rw e (
        λ h. let (x, i, pos) = rest.0 h in (x, inr i, pos),
        λ (x, i, pos). elim i [
          | inl q ↦ absurd (ground (arith, e, pos, ap (λ z. z.1) q))
          | inr k ↦ rest.1 (x, k, pos)
        ],
      )
    ]

In-insert_text_iff : (n s : Text) (ts : List Text) → In n (insert_text s ts) ↔ ((n ≡ s) ⊎ In n ts)
unfolding insert_text
In-insert_text_iff n s [] = ground arith
In-insert_text_iff n s (t ∷ ts) = ground (arith, In-insert_text_iff n s ts)

pub In-sort_texts_iff : (n : Text) (ts : List Text) → In n (sort_texts ts) ↔ In n ts
unfolding sort_texts
In-sort_texts_iff n [] = ground arith
In-sort_texts_iff n (t ∷ ts) =
    ground (arith, In-insert_text_iff n t (sort_texts ts), In-sort_texts_iff n ts)
