-- ===== src/Prelude/Lists.antt =====
-- Lists measured and indexed by native numbers, under the library's names, and predicates on lists.
use Prim.Native.Nat.{ℕ, zero, suc, ◌+◌, ◌<◌}
use mathlib.Core.Path.{◌≡◌, refl}
use mathlib.Core.Logic.{◌↔◌, ◌⊎◌, inl, inr}
use mathlib.Core.Bool.{Bool, true, false, ◌||◌}
use mathlib.Core.Option.{Option, none, some}
use mathlib.Core.List.{List, [], ◌∷◌, ◌++◌}
use native.Mathlib.Omega.{arith}

module _ {ℓ} {A : Type ℓ} where
  abbrev pub length : List A → ℕ
  length [] = 0
  length (x ∷ xs) = suc (length xs)

  abbrev pub get_elem? : List A → ℕ → Option A
  get_elem? [] i = none
  get_elem? (x ∷ xs) zero = some x
  get_elem? (x ∷ xs) (suc i) = get_elem? xs i

  abbrev pub head? : List A → Option A
  head? [] = none
  head? (x ∷ xs) = some x

  abbrev pub is_empty : List A → Bool
  is_empty [] = true
  is_empty (x ∷ xs) = false

  -- `iter().any(p)`
  abbrev pub any : (A → Bool) → List A → Bool
  any p [] = false
  any p (x ∷ xs) = p x || any p xs

  pub length-append : (xs ys : List A) → length (xs ++ ys) ≡ length xs + length ys
  length-append [] ys = omega arith
  length-append (x ∷ xs) ys = omega (arith, length-append xs ys)

-- Membership, absence of repetition and universal statements, which compute to sums and tuples.
abbrev pub In : {A : Type 0} → A → List A → Type 0
In a [] = ⊥
In a (x ∷ xs) = (a ≡ x) ⊎ In a xs

abbrev pub Nodup : {A : Type 0} → List A → Type 0
Nodup [] = Unit
Nodup (x ∷ xs) = (¬ In x xs) × Nodup xs

abbrev pub All {ℓ κ} : {A : Type ℓ} → (A → Type κ) → List A → Type κ
All P [] = Unit
All P (x ∷ xs) = P x × All P xs

module _ {A : Type 0} where
  pub In-append : (a : A) (xs ys : List A) → In a (xs ++ ys) ↔ (In a xs ⊎ In a ys)
  In-append a [] ys = (inr, λ h. elim h [ inl e ↦ absurd e | inr m ↦ m ])
  In-append a (x ∷ xs) ys = ground (arith, In-append a xs ys)

  pub Nodup-snoc : (xs : List A) (a : A) → Nodup xs → ¬ In a xs → Nodup (xs ++ a ∷ [])
  Nodup-snoc [] a d h = (λ e. e, tt)
  Nodup-snoc (x ∷ xs) a (n, d) h =
      (λ m. ground (arith, In-append x xs (a ∷ [])), Nodup-snoc xs a d (λ m. h (inr m)))

  pub eq-nil : (xs : List A) → ((a : A) → ¬ In a xs) → xs ≡ []
  eq-nil [] h = refl
  eq-nil (x ∷ xs) h = absurd (h x (inl refl))

  pub In-length-pos : (a : A) (xs : List A) → In a xs → 0 < length xs
  In-length-pos a [] m = absurd m
  In-length-pos a (x ∷ xs) m = omega arith

module _ {ℓ κ} {A : Type ℓ} (P : A → Type κ) where
  pub All-append : (xs ys : List A) → All P xs → All P ys → All P (xs ++ ys)
  All-append [] ys h k = k
  All-append (x ∷ xs) ys (p, h) k = (p, All-append xs ys h k)

module _ {A : Type 0} (P : A → Type 0) where
  pub All-In : (xs : List A) → All P xs → (a : A) → In a xs → P a
  All-In [] h a m = absurd m
  All-In (x ∷ xs) (p, h) a m = elim m [ inl e ↦ rw e p | inr k ↦ All-In xs h a k ]

  pub All-of_In : (xs : List A) → ((a : A) → In a xs → P a) → All P xs
  All-of_In [] h = tt
  All-of_In (x ∷ xs) h = (h x (inl refl), All-of_In xs (λ a m. h a (inr m)))
