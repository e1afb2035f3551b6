-- ===== src/Schema/Validation/Attributes/Zones.antt =====
-- When the components of a dynamic zone agree on the fields that they share.
use ferris_cms.Prelude.{
  some_inj, ◌≡◌, refl, ap, sym, ◌∙◌, ◌↔◌, ◌⊎◌, false, none, some, List, [], ◌∷◌, ◌++◌, Text, lit,
  texts_eq_iff, text_eq, text_eq_iff, text_eq_refl, Assoc, lookup, insert_key, lookup-insert_key,
  In, Bool-cases, Option-cases, inl, inr, arith,
}
use ferris_cms.Domain.Field.{FieldType, FieldType-discrete}
use ferris_cms.Schema.Model.{Attribute, Schema}
use ferris_cms.Schema.Validation.{error, when}
use ferris_cms.Schema.Validation.Relations.{decide-true_iff, append-empty_iff, when-error_iff}
use ferris_cms.Schema.Validation.Attributes.{
  Signature, zone_fields, conflicts, collision_errors, validate_dz_collisions,
}

-- The fields have the same type and, if that is an enumeration, the same values.
pub Agree : Signature → Signature → Type 0
Agree a b =
    (a.field_type ≡ b.field_type)
    × (b.field_type ≡ FieldType.enumeration → a.enum_values ≡ b.enum_values)

conflicts_iff : (a b : Signature) → (conflicts a b ≡ false) ↔ Agree a b
unfolding conflicts Agree
conflicts_iff a b = ground (
  arith,
  decide-true_iff (FieldType-discrete a.field_type b.field_type),
  decide-true_iff (FieldType-discrete b.field_type FieldType.enumeration),
  texts_eq_iff a.enum_values b.enum_values,
)

Agree-refl : (a : Signature) → Agree a a
unfolding Agree
Agree-refl a = (refl, λ e. refl)

Agree-sym : (a b : Signature) → Agree a b → Agree b a
unfolding Agree
Agree-sym a b (t, v) = (sym t, λ e. sym (v (sym t ∙ e)))

Agree-trans : (a b c : Signature) → Agree a b → Agree b c → Agree a c
unfolding Agree
Agree-trans a b c (t, v) (u, w) = (t ∙ u, λ e. v (u ∙ e) ∙ w e)

-- Fields of one name agree.
abbrev pub AllAgree : List (Text × Signature) → Type 0
AllAgree fields =
    (name : Text) (a b : Signature) → In (name, a) fields → In (name, b) fields → Agree a b

-- The fields agree with one another and with those that the map has.
AgreeWith : Assoc Signature → List (Text × Signature) → Type 0
AgreeWith seen fields =
    AllAgree fields
    × ((name : Text) (a b : Signature)
        → lookup name seen ≡ some a
        → In (name, b) fields
        → Agree a b)

In-field :
    (n m : Text) (a s : Signature) (fields : List (Text × Signature))
    → In (n, a) ((m, s) ∷ fields)
    → ((n ≡ m) × (a ≡ s)) ⊎ In (n, a) fields
In-field n m a s fields (inl e) = inl (ap (λ p. p.0) e, ap (λ p. p.1) e)
In-field n m a s fields (inr i) = inr i

module _ (name : Text) (sig : Signature) (fields : List (Text × Signature)) where
  AllAgree-cons :
      ((b : Signature) → In (name, b) fields → Agree sig b)
      → AllAgree fields
      → AllAgree ((name, sig) ∷ fields)
  AllAgree-cons here rest n a b i j = elim (In-field n name a sig fields i) [
    | inl (p, q) ↦ elim (In-field n name b sig fields j) [
      | inl (_, r) ↦ rw (q, r) (Agree-refl sig)
      | inr l ↦ rw q (here b (rw p at l))
    ]
    | inr k ↦ elim (In-field n name b sig fields j) [
      | inl (p, r) ↦ rw r (Agree-sym sig a (here a (rw p at k)))
      | inr l ↦ rest n a b k l
    ]
  ]

  -- a field of a name that is new
  AgreeWith-new_iff :
      (seen : Assoc Signature)
      → lookup name seen ≡ none
      → AgreeWith (insert_key name sig seen) fields ↔ AgreeWith seen ((name, sig) ∷ fields)
  unfolding AgreeWith
  AgreeWith-new_iff seen e =
      let found = λ (n : Text). lookup-insert_key n name sig seen in
      (
        λ (all, old).
            let here : (b : Signature) → In (name, b) fields → Agree sig b =
              λ b i. old name sig b (rw (found name, text_eq_refl name) refl) i in
            (
              AllAgree-cons here all,
              λ n a b q i. elim (In-field n name b sig fields i) [
                | inl (p, _) ↦ absurd (cc (q, e, p))
                | inr k ↦ elim (Bool-cases (text_eq n name)) [
                  | inl t ↦ absurd (cc (q, e, (text_eq_iff n name).0 t))
                  | inr t ↦ old n a b (rw (found n, t) q) k
                ]
              ],
            ),
        λ (all, old). (
          λ n a b i j. all n a b (inr i) (inr j),
          λ n a b q i. elim (Bool-cases (text_eq n name)) [
            | inl t ↦
                let same : n ≡ name = (text_eq_iff n name).0 t in
                let first : sig ≡ a = some_inj sig a (rw (found n, t) at q) in
                all n a b (inl (rw (same, ← first) refl)) (inr i)
            | inr t ↦ old n a b (rw (found n, t) at q) (inr i)
          ],
        ),
      )

  -- a field of a name that was seen
  AgreeWith-seen_iff :
      (seen : Assoc Signature) (prev : Signature)
      → lookup name seen ≡ some prev
      → (Agree prev sig × AgreeWith seen fields) ↔ AgreeWith seen ((name, sig) ∷ fields)
  unfolding AgreeWith
  AgreeWith-seen_iff seen prev e = (
    λ (now, (all, old)). (
      AllAgree-cons (λ b i. Agree-trans sig prev b (Agree-sym prev sig now) (old name prev b e i))
          all,
      λ n a b q i. elim (In-field n name b sig fields i) [
        | inl (p, r) ↦ let first : prev ≡ a = some_inj prev a (cc (q, e, p)) in rw (← first, r) now
        | inr k ↦ old n a b q k
      ],
    ),
    λ (all, old). (
      old name prev sig e (inl refl),
      ((λ n a b i j. all n a b (inr i) (inr j)), λ n a b q i. old n a b q (inr i)),
    ),
  )

collision_errors-empty_iff :
    (path : Text) (seen : Assoc Signature) (fields : List (Text × Signature))
    → (collision_errors path seen fields ≡ []) ↔ AgreeWith seen fields
unfolding collision_errors
collision_errors-empty_iff path seen [] =
    unfold AgreeWith in (λ h. ((λ n a b i. absurd i), λ n a b e i. absurd i), λ h. refl)
collision_errors-empty_iff path seen ((name, sig) ∷ fields) =
    elim (Option-cases (lookup name seen)) [
      | inl e ↦
          let rest = collision_errors-empty_iff path (insert_key name sig seen) fields in
          let new = AgreeWith-new_iff name sig fields seen e in
          rw (e, collision_errors) (λ h. new.0 (rest.0 h), λ h. rest.1 (new.1 h))
      | inr (prev, e) ↦
          let rest = collision_errors-empty_iff path seen fields in
          let old = AgreeWith-seen_iff name sig fields seen prev e in
          let code = lit "dz-field-collision" in
          let now = when-error_iff (conflicts prev sig) (path ++ lit ".components") code in
          let both =
            append-empty_iff (when (conflicts prev sig) (error (path ++ lit ".components") code))
              (collision_errors path seen fields) in
          let agree = conflicts_iff prev sig in
          rw (e, collision_errors)
            (
              λ h. old.0 (agree.0 (now.0 (both.0 h).0), rest.0 (both.0 h).1),
              λ h. let (a, w) = old.1 h in both.1 (now.1 (agree.1 a), rest.1 w),
            )
    ]

module _ {V : Type 0} (registry : Assoc (Schema V)) where
  -- No error is reported exactly when the fields of one name agree in all components of the zone.
  pub validate_dz_collisions-empty_iff :
      (path : Text) (attr : Attribute V)
      → (validate_dz_collisions registry path attr ≡ [])
        ↔ AllAgree (zone_fields registry attr.components)
  unfolding validate_dz_collisions AgreeWith lookup
  validate_dz_collisions-empty_iff path attr =
      let loop = collision_errors-empty_iff path [] (zone_fields registry attr.components) in
      (λ h. (loop.0 h).0, λ all. loop.1 (all, λ n a b q i. absurd (cc q)))
