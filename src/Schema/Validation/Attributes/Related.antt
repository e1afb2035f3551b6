-- ===== src/Schema/Validation/Attributes/Related.antt =====
-- When a relation attribute is accepted.
use ferris_cms.Prelude.{
  some_inj, ◌≡◌, ◌≢◌, refl, ap, ◌↔◌, true, false, Option, none, some, [], Text, Assoc, lookup,
  Bool-cases, inl, inr, arith,
}
use ferris_cms.Domain.Kind.{ContentTypeKind, RelationKind, RelationKind-discrete}
use ferris_cms.Domain.Uid.{Uid}
use ferris_cms.Domain.Field.{relation}
use ferris_cms.Schema.Model.{Attribute, Schema}
use ferris_cms.Schema.Validation.Relations.{decide-true_iff, is_relation_iff}
use ferris_cms.Schema.Validation.Attributes.{
  dual_of, is_component_kind, or_else, kind_is, inverse_errors, paired_errors, target_errors,
  kind_errors, validate_relation,
}

pub is_component_kind_iff :
    (k : ContentTypeKind) → (is_component_kind k ≡ false) ↔ (k ≢ ContentTypeKind.component)
is_component_kind_iff ContentTypeKind.component = ground arith
is_component_kind_iff k = ground arith

kind_is_iff :
    (found : Option RelationKind) (dual : RelationKind)
    → (kind_is found dual ≡ true) ↔ (found ≡ some dual)
unfolding kind_is
kind_is_iff none dual = ground arith
kind_is_iff (some kind) dual =
    let same = decide-true_iff (RelationKind-discrete kind dual) in
    (λ h. ap some (same.0 h), λ h. same.1 (some_inj kind dual h))

module _ {V : Type 0} where
  -- The field `inverse` is there, and is a relation of the kind `dual`.
  pub IsInverse : Assoc (Attribute V) → Text → RelationKind → Type 0
  IsInverse attributes inverse dual =
      (inv : Attribute V) × (lookup inverse attributes ≡ some inv)
      × (inv.attr_type ≡ relation)
      × (inv.relation ≡ some dual)

  -- An inverse field that is named, of a kind that has a dual, is one of that dual kind.
  pub IsPaired : Attribute V → RelationKind → Schema V → Type 0
  IsPaired attr kind target =
      (inverse : Text) (dual : RelationKind)
      → or_else attr.inversed_by attr.mapped_by ≡ some inverse
      → dual_of kind ≡ some dual
      → IsInverse target.attributes inverse dual

  -- The relation has a kind and a target among the schemas that is no component, and is paired.
  pub IsRelated : Assoc (Schema V) → Attribute V → Type 0
  IsRelated registry attr =
      (kind : RelationKind) × (uid : Uid) × (target : Schema V) × (attr.relation ≡ some kind)
      × (attr.target ≡ some uid)
      × (lookup uid registry ≡ some target)
      × (target.kind ≢ ContentTypeKind.component)
      × IsPaired attr kind target

  inverse_errors-empty_iff :
      (path : Text) (dual : RelationKind) (found : Option (Attribute V))
      → (inverse_errors path dual found ≡ []) ↔ (
          (inv : Attribute V) × (found ≡ some inv)
          × (inv.attr_type ≡ relation)
          × (inv.relation ≡ some dual))
  unfolding inverse_errors
  inverse_errors-empty_iff path dual none = (λ h. absurd (cc h), λ h. absurd (cc h.1))
  inverse_errors-empty_iff path dual (some inv) = (
    λ h. (
      inv,
      refl,
      ground (arith, is_relation_iff inv.attr_type, h),
      ground (arith, kind_is_iff inv.relation dual, h),
    ),
    λ (inv', e, t, r). ground (
      arith,
      is_relation_iff inv.attr_type,
      kind_is_iff inv.relation dual,
      some_inj inv inv' e,
      t,
      r,
    ),
  )

  paired_errors-empty_iff :
      (path : Text) (inverse : Option Text) (dual : Option RelationKind)
      (attributes : Assoc (Attribute V))
      → (paired_errors path inverse dual attributes ≡ []) ↔ (
          (i : Text) (d : RelationKind)
          → inverse ≡ some i
          → dual ≡ some d
          → IsInverse attributes i d)
  unfolding paired_errors IsInverse
  paired_errors-empty_iff path none dual attributes = (λ h i d e. absurd (cc e), λ h. refl)
  paired_errors-empty_iff path (some i) none attributes = (λ h i' d e q. absurd (cc q), λ h. refl)
  paired_errors-empty_iff path (some i) (some d) attributes =
      let found = inverse_errors-empty_iff path d (lookup i attributes) in
      (
        λ h i' d' e q. rw (← some_inj i i' e, ← some_inj d d' q) (found.0 h),
        λ h. found.1 (h i d refl refl),
      )

  target_errors-empty_iff :
      (path : Text) (attr : Attribute V) (kind : RelationKind) (found : Option (Schema V))
      → (target_errors path attr kind found ≡ []) ↔ (
          (target : Schema V) × (found ≡ some target)
          × (target.kind ≢ ContentTypeKind.component)
          × IsPaired attr kind target)
  unfolding target_errors IsPaired
  target_errors-empty_iff path attr kind none = (λ h. absurd (cc h), λ h. absurd (cc h.1))
  target_errors-empty_iff path attr kind (some target) =
      let paired =
        paired_errors-empty_iff path (or_else attr.inversed_by attr.mapped_by) (dual_of kind)
          target.attributes in
      let component = is_component_kind_iff target.kind in
      elim (Bool-cases (is_component_kind target.kind)) [
        | inl e ↦ (
          λ h. absurd (ground (arith, e, h)),
          λ (t, q, n, _). absurd (cc (e, component.1 (rw (some_inj target t q) n))),
        )
        | inr e ↦ rw e (
          λ h. (target, refl, component.0 e, paired.0 h),
          λ (t, q, n, p). paired.1 (rw (some_inj target t q) p),
        )
      ]

  kind_errors-empty_iff :
      (registry : Assoc (Schema V)) (path : Text) (attr : Attribute V) (kind : Option RelationKind)
      (uid : Option Uid)
      → (kind_errors registry path attr kind uid ≡ []) ↔ (
          (k : RelationKind) × (u : Uid) × (target : Schema V) × (kind ≡ some k)
          × (uid ≡ some u)
          × (lookup u registry ≡ some target)
          × (target.kind ≢ ContentTypeKind.component)
          × IsPaired attr k target)
  kind_errors-empty_iff registry path attr none uid = (λ h. absurd (cc h), λ h. absurd (cc h.3))
  kind_errors-empty_iff registry path attr (some k) none =
      (λ h. absurd (cc h), λ h. absurd (cc h.4))
  kind_errors-empty_iff registry path attr (some k) (some u) =
      let found = target_errors-empty_iff path attr k (lookup u registry) in
      (
        λ h. let (t, q, n, p) = found.0 h in (k, u, t, refl, refl, q, n, p),
        λ (k', u', t, e, f, q, n, p).
            found.1 (t, rw (some_inj u u' f) q, n, rw (some_inj k k' e) p),
      )

  pub validate_relation-empty_iff :
      (registry : Assoc (Schema V)) (path : Text) (attr : Attribute V)
      → (validate_relation registry path attr ≡ []) ↔ IsRelated registry attr
  unfolding validate_relation IsRelated
  validate_relation-empty_iff registry path attr =
      kind_errors-empty_iff registry path attr attr.relation attr.target
