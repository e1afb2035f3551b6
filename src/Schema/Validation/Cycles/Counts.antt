-- ===== src/Schema/Validation/Cycles/Counts.antt =====
-- The edges that lead to a field from a list of fields.
use ferris_cms.Prelude.{
  ◌≡◌, ◌≢◌, refl, ◌↔◌, ◌⊎◌, inl, inr, ℕ, zero, suc, ◌+◌, ◌<◌, List, [], ◌∷◌, ◌++◌, Text, text_eq,
  text_eq_iff, length, In, Nodup, Bool-cases, if◌then◌else◌, arith,
}

Nat-cases : (n : ℕ) → (n ≡ 0) ⊎ (0 < n)
Nat-cases zero = inl refl
Nat-cases (suc n) = inr (omega arith)

unfoldable pub count : Text → List Text → ℕ
count a [] = 0
count a (x ∷ xs) = (if text_eq a x then 1 else 0) + count a xs

pub count_pos_iff : (a : Text) (xs : List Text) → (0 < count a xs) ↔ In a xs
unfolding count
count_pos_iff a [] = (λ h. absurd (omega arith), λ h. absurd h)
count_pos_iff a (x ∷ xs) = ground (arith, text_eq_iff a x, count_pos_iff a xs)

pub count-cons :
    (a x : Text) (xs : List Text) → count a (x ∷ xs) ≡ (if text_eq a x then 1 else 0) + count a xs
unfolding count
count-cons a x xs = refl

pub count-nil : (a : Text) → count a [] ≡ 0
unfolding count
count-nil a = refl

pub count-snoc :
    (a x : Text) (xs : List Text)
    → count a (xs ++ x ∷ []) ≡ count a xs + (if text_eq a x then 1 else 0)
unfolding count
count-snoc a x [] = ground arith
count-snoc a x (y ∷ xs) = ground (arith, count-snoc a x xs)

-- the list without the first `n`
unfoldable pub remove : Text → List Text → List Text
remove n [] = []
remove n (p ∷ ps) = if text_eq n p then ps else p ∷ remove n ps

pub In-remove_iff :
    (x n : Text) (ps : List Text) → Nodup ps → In x (remove n ps) ↔ (In x ps × (x ≢ n))
unfolding remove
In-remove_iff x n [] d = (λ h. absurd h, λ h. absurd h.0)
In-remove_iff x n (p ∷ ps) (f, d) = elim (Bool-cases (text_eq n p)) [
  | inl e ↦
      let same : n ≡ p = (text_eq_iff n p).0 e in
      rw e (
        λ m. (inr m, λ q. f (rw (← same, ← q) m)),
        λ (m, q). elim m [ inl k ↦ absurd (q (cc (k, same))) | inr k ↦ k ],
      )
  | inr e ↦
      let rest = In-remove_iff x n ps d in
      rw e (
        λ m. elim m [
          | inl k ↦ (inl k, λ q. absurd (cc (e, (text_eq_iff n p).1 (cc (k, q)))))
          | inr k ↦ (inr (rest.0 k).0, (rest.0 k).1)
        ],
        λ (m, q). elim m [ inl k ↦ inl k | inr k ↦ inr (rest.1 (k, q)) ],
      )
]

pub Nodup-remove : (n : Text) (ps : List Text) → Nodup ps → Nodup (remove n ps)
unfolding remove
Nodup-remove n [] d = tt
Nodup-remove n (p ∷ ps) (f, d) = elim (Bool-cases (text_eq n p)) [
  | inl e ↦ rw e d
  | inr e ↦ rw e ((λ m. f ((In-remove_iff p n ps d).0 m).0), Nodup-remove n ps d)
]

pub length-remove : (n : Text) (ps : List Text) → In n ps → length ps ≡ length (remove n ps) + 1
unfolding remove
length-remove n [] m = absurd m
length-remove n (p ∷ ps) m = elim (Bool-cases (text_eq n p)) [
  | inl e ↦ rw e (omega arith)
  | inr e ↦ elim m [
    | inl q ↦ absurd (cc (e, (text_eq_iff n p).1 q))
    | inr k ↦ rw e (omega (arith, length-remove n ps k))
  ]
]

module _ (adj : Text → List Text) where
  -- the edges from the fields `ps` to the field `m`
  unfoldable pub load : Text → List Text → ℕ
  unfolding count
  load m [] = 0
  load m (p ∷ ps) = count m (adj p) + load m ps

  pub load-append : (m : Text) (ps qs : List Text) → load m (ps ++ qs) ≡ load m ps + load m qs
  unfolding load
  load-append m [] qs = omega arith
  load-append m (p ∷ ps) qs = omega (arith, load-append m ps qs)

  pub load-remove :
      (m n : Text) (ps : List Text) → In n ps → load m ps ≡ count m (adj n) + load m (remove n ps)
  unfolding load remove
  load-remove m n [] h = absurd h
  load-remove m n (p ∷ ps) h = elim (Bool-cases (text_eq n p)) [
    | inl e ↦ rw (e, (text_eq_iff n p).0 e) refl
    | inr e ↦ elim h [
      | inl q ↦ absurd (cc (e, (text_eq_iff n p).1 q))
      | inr k ↦ rw e (omega (arith, load-remove m n ps k))
    ]
  ]

  pub load_pos : (m : Text) (ps : List Text) → 0 < load m ps → (p : Text) × In p ps × In m (adj p)
  unfolding load
  load_pos m [] h = absurd (omega arith)
  load_pos m (p ∷ ps) h = elim (Nat-cases (count m (adj p))) [
    | inl e ↦ let (q, k, l) = load_pos m ps (omega arith) in (q, inr k, l)
    | inr pos ↦ (p, inl refl, (count_pos_iff m (adj p)).0 pos)
  ]

  pub load_pos_of_In : (m p : Text) (ps : List Text) → In p ps → In m (adj p) → 0 < load m ps
  unfolding load
  load_pos_of_In m p [] h k = absurd h
  load_pos_of_In m p (q ∷ ps) (inl e) k =
      let pos : 0 < count m (adj q) = (count_pos_iff m (adj q)).1 (rw (← e) k) in omega arith
  load_pos_of_In m p (q ∷ ps) (inr h) k = omega (arith, load_pos_of_In m p ps h k)
