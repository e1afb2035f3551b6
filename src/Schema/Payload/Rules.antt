-- ===== src/Schema/Payload/Rules.antt =====
-- When a rule on a value has no error: the shapes that the rules have.
use ferris_cms.Prelude.{
  some_inj, ◌≡◌, refl, sym, ◌↔◌, ◌⊎◌, Bool, true, false, not, ◌&&◌, Option, none, some, List, [],
  ◌∷◌, ◌++◌, is_empty, Text, lit, contains, contains_iff, In, arith, if◌then◌else◌,
}
use ferris_cms.Schema.Validation.Relations.{append-empty_iff}
use ferris_cms.Schema.Payload.{PayloadError, failure, rule_error, breaks, of_part}

-- a limit, if there is one, that a value is not beyond
abbrev pub Limit : {A : Type 0} → Option A → (A → Bool) → Type 0
Limit {A = A} limit beyond = (a : A) → limit ≡ some a → beyond a ≡ false

-- what is said of a part, if the value has the part
abbrev pub Part : {A : Type 0} → Option A → (A → Type 0) → Type 0
Part {A = A} part P = (a : A) → part ≡ some a → P a

pub rule_error-empty_iff :
    (b : Bool) (name code : Text) → (rule_error b name code ≡ []) ↔ (b ≡ false)
rule_error-empty_iff true name code = ground arith
rule_error-empty_iff false name code = ground arith

pub Limit-empty_iff :
    {A : Type 0} (limit : Option A) (beyond : A → Bool) (name code : Text)
    → (rule_error (breaks limit beyond) name code ≡ []) ↔ Limit limit beyond
Limit-empty_iff none beyond name code = (λ h a e. absurd (cc e), λ h. refl)
Limit-empty_iff (some a) beyond name code =
    let iff = rule_error-empty_iff (beyond a) name code in
    (λ h b e. cc (e, iff.0 h), λ h. iff.1 (h a refl))

pub part-empty_iff :
    {A : Type 0} (part : Option A) (f : A → List PayloadError) (P : A → Type 0)
    → ((a : A) → (f a ≡ []) ↔ P a)
    → (of_part part f ≡ []) ↔ Part part P
part-empty_iff none f P h = (λ k a e. absurd (cc e), λ k. refl)
part-empty_iff (some a) f P h =
    (λ k b e. rw (some_inj b a (sym e)) ((h a).0 k), λ k. (h a).1 (k a refl))

pub both-empty_iff :
    {P Q : Type 0} (xs ys : List PayloadError)
    → (xs ≡ []) ↔ P
    → (ys ≡ []) ↔ Q
    → (xs ++ ys ≡ []) ↔ (P × Q)
both-empty_iff xs ys p q =
    let both = append-empty_iff xs ys in
    (λ h. (p.0 (both.0 h).0, q.0 (both.0 h).1), λ (a, b). both.1 (p.1 a, q.1 b))

pub if-empty_iff :
    {P : Type 0} (b : Bool) (xs : List PayloadError)
    → (xs ≡ []) ↔ P
    → ((if b then xs else []) ≡ []) ↔ (b ≡ true → P)
if-empty_iff true xs p = (λ h e. p.0 h, λ h. p.1 (h refl))
if-empty_iff false xs p = (λ h e. absurd (cc e), λ h. refl)

pub sound_step :
    {P : Type 0} (absent typed : Bool) (name : Text) (xs : List PayloadError)
    → (xs ≡ []) ↔ P
    → ((if absent then [] else if not typed then failure name (lit "type") else xs) ≡ [])
      ↔ (absent ≡ false → (typed ≡ true) × P)
sound_step true typed name xs p = (λ h e. absurd (cc e), λ h. refl)
sound_step false true name xs p = (λ h e. (refl, p.0 h), λ h. p.1 (h refl).1)
sound_step false false name xs p = (λ h. absurd (cc h), λ h. absurd (cc (h refl).0))

pub field_step :
    {P : Type 0} (computed present formula required enforce empty : Bool) (name : Text)
    (xs : List PayloadError)
    → (xs ≡ []) ↔ P
    → ((if computed && present && not formula
          then failure name (lit "computed")
          else if required && enforce && not present
          then failure name (lit "required")
          else if required && enforce && empty
          then failure name (lit "required")
          else xs)
        ≡ [])
      ↔ ((computed ≡ true → present ≡ true → formula ≡ true)
          × ((required ≡ true → enforce ≡ true → (present ≡ true) × (empty ≡ false)) × P))
field_step computed present formula required enforce empty name xs p = ground (arith, p)

pub choice-empty_iff :
    (s name : Text) (values : List Text)
    → (rule_error (not (is_empty values) && not (contains values s)) name (lit "enum") ≡ [])
      ↔ ((values ≡ []) ⊎ In s values)
choice-empty_iff s name [] = ground arith
choice-empty_iff s name (x ∷ xs) = ground (arith, contains_iff (x ∷ xs) s)
