-- ===== src/Schema/Validation/Attributes/Accepted.antt =====
-- When the attributes of a schema are accepted.
use ferris_cms.Prelude.{
  some_inj, ◌≡◌, ◌≢◌, refl, ◌↔◌, true, false, Option, none, some, List, [], ◌∷◌, ◌++◌, is_empty,
  Text, lit, text_eq, text_eq_iff, contains, contains_iff, Assoc, keys, lookup, In, Nodup, All,
  Bool-cases, inl, inr, arith,
}
use ferris_cms.Prelude.Int.{ℤ, lt_int}
use ferris_cms.Domain.Naming.{snake_case}
use ferris_cms.Domain.Kind.{ContentTypeKind}
use ferris_cms.Domain.Uid.{Uid}
use ferris_cms.Domain.Field.{FieldType}
use ferris_cms.Schema.Model.{Attribute, Schema}
use ferris_cms.Schema.Validation.Relations.{when_iff, unless_iff, both_iff}
use ferris_cms.Schema.Validation.Enumeration.{is_identifier, validate_enumeration-empty_iff}
use ferris_cms.Schema.Validation.Attributes.{
  Std, reserved_attributes, is_component_kind, find, is_component_schema, member_errors,
  component_errors, exceeds, media_types, media_errors, is_reserved, number, target_field_errors,
  type_errors, regex_errors, attribute_errors, attributes_loop, zone_fields,
}
use ferris_cms.Schema.Validation.Attributes.Related.{IsRelated, validate_relation-empty_iff}
use ferris_cms.Schema.Validation.Attributes.Zones.{AllAgree, validate_dz_collisions-empty_iff}

-- If both bounds are there, the lower one is not above the upper one.
pub InRange : Option ℤ → Option ℤ → Type 0
InRange min max = (a b : ℤ) → min ≡ some a → max ≡ some b → lt_int b a ≡ false

-- No reserved name has the snake case of `name`.
pub IsFree : Text → Type 0
IsFree name = (r : Text) → In r reserved_attributes → snake_case r ≢ snake_case name

module _ {V : Type 0} (registry : Assoc (Schema V)) where
  -- `uid` is that of a component among the schemas.
  pub IsComponent : Uid → Type 0
  IsComponent uid =
      (target : Schema V) × (lookup uid registry ≡ some target)
      × (target.kind ≡ ContentTypeKind.component)

module _ {V N : Type 0} (std : Std V N) (registry : Assoc (Schema V))
    (attributes : Assoc (Attribute V)) where
  -- What an attribute of the type has to have.
  pub IsTyped : Attribute V → FieldType → Type 0
  IsTyped attr FieldType.enumeration =
      (attr.enum_values ≢ [])
      × Nodup attr.enum_values
      × All (λ v. is_identifier v ≡ true) attr.enum_values
  IsTyped attr FieldType.uid = (t : Text) → attr.target_field ≡ some t → In t (keys attributes)
  IsTyped attr FieldType.relation = IsRelated registry attr
  IsTyped attr FieldType.component =
      ((uid : Uid) × (attr.component ≡ some uid) × IsComponent registry uid)
      × InRange (number std registry attributes attr.min) (number std registry attributes attr.max)
  IsTyped attr FieldType.dynamiczone =
      (attr.components ≢ [])
      × (All (IsComponent registry) attr.components
          × AllAgree (zone_fields registry attr.components))
  IsTyped attr FieldType.media = All (λ t. In t media_types) attr.allowed_types
  IsTyped attr _ = Unit

  -- The name is an identifier that is not reserved, the regular expression is well formed, the
  -- lengths are in order, and the attribute has what its type wants.
  pub record IsAttribute (name : Text) (attr : Attribute V) : Type 0 where
    pub identifier : is_identifier name ≡ true
    pub free : IsFree name
    pub regex : (re : Text) → attr.regex ≡ some re → std.is_regex re ≡ true
    pub lengths : InRange attr.min_length attr.max_length
    pub typed : IsTyped attr attr.attr_type

exceeds_iff : (min max : Option ℤ) → (exceeds min max ≡ false) ↔ InRange min max
unfolding exceeds InRange
exceeds_iff (some a) (some b) =
    (λ h x y p q. rw (← some_inj a x p, ← some_inj b y q) h, λ h. h a b refl refl)
exceeds_iff (some a) none = (λ h x y p q. absurd (cc q), λ h. refl)
exceeds_iff none max = (λ h x y p q. absurd (cc p), λ h. refl)

is_reserved_iff :
    (rs : List Text) (name : Text)
    → (is_reserved rs name ≡ false) ↔ ((r : Text) → In r rs → snake_case r ≢ snake_case name)
unfolding is_reserved
is_reserved_iff [] name = (λ h r i. absurd i, λ h. refl)
is_reserved_iff (r ∷ rs) name =
    let same = text_eq_iff (snake_case r) (snake_case name) in
    let rest = is_reserved_iff rs name in
    elim (Bool-cases (text_eq (snake_case r) (snake_case name))) [
      | inl e ↦ rw e (λ h. absurd (cc h), λ h. absurd (h r (inl refl) (same.0 e)))
      | inr e ↦ rw e (
        λ h s i. elim i [ inl q ↦ λ k. absurd (cc (e, same.1 (rw q at k))) | inr k ↦ rest.0 h s k ],
        λ h. rest.1 (λ s i. h s (inr i)),
      )
    ]

is_empty_iff : {A : Type 0} (xs : List A) → (is_empty xs ≡ false) ↔ (xs ≢ [])
is_empty_iff [] = (λ h. absurd (cc h), λ h. absurd (h refl))
is_empty_iff (x ∷ xs) = (λ h e. absurd (cc e), λ h. refl)

media_errors-empty_iff :
    (path : Text) (types : List Text)
    → (media_errors path types ≡ []) ↔ All (λ t. In t media_types) types
unfolding media_errors
media_errors-empty_iff path [] = (λ h. tt, λ h. refl)
media_errors-empty_iff path (t ∷ types) =
    both_iff
      (unless_iff (contains media_types t) (path ++ lit ".allowedTypes") (lit "invalid-media-type")
        (contains_iff media_types t))
      (media_errors-empty_iff path types)

component_kind_iff :
    (k : ContentTypeKind) → (is_component_kind k ≡ true) ↔ (k ≡ ContentTypeKind.component)
component_kind_iff ContentTypeKind.component = ground arith
component_kind_iff k = ground arith

module _ {V : Type 0} (registry : Assoc (Schema V)) where
  is_component_schema_iff :
      (found : Option (Schema V))
      → (is_component_schema registry found ≡ true)
        ↔ ((target : Schema V) × (found ≡ some target) × (target.kind ≡ ContentTypeKind.component))
  is_component_schema_iff none = (λ h. absurd (cc h), λ h. absurd (cc h.1))
  is_component_schema_iff (some s) =
      let kind = component_kind_iff s.kind in
      (λ h. (s, refl, kind.0 h), λ (t, q, k). kind.1 (rw (some_inj s t q) k))

  member_errors-empty_iff :
      (path : Text) (uids : List Uid)
      → (member_errors registry path uids ≡ []) ↔ All (IsComponent registry) uids
  unfolding member_errors IsComponent
  member_errors-empty_iff path [] = (λ h. tt, λ h. refl)
  member_errors-empty_iff path (uid ∷ uids) =
      both_iff
        (unless_iff (is_component_schema registry (lookup uid registry)) (path ++ lit ".components")
          (lit "missing-component") (is_component_schema_iff (lookup uid registry)))
        (member_errors-empty_iff path uids)

  component_errors-empty_iff :
      (path : Text) (uid : Option Uid)
      → (component_errors registry path (find registry uid) ≡ [])
        ↔ ((u : Uid) × (uid ≡ some u) × IsComponent registry u)
  unfolding component_errors IsComponent
  component_errors-empty_iff path none = (λ h. absurd (cc h), λ h. absurd (cc h.1))
  component_errors-empty_iff path (some uid) =
      let found = found_errors (lookup uid registry) in
      (
        λ h. let (t, q, k) = found.0 h in (uid, refl, (t, q, k)),
        λ (u, e, (t, q, k)). found.1 (t, rw (some_inj uid u e) q, k),
      )
    where
      found_errors :
          (o : Option (Schema V))
          → (component_errors registry path o ≡ [])
            ↔ ((target : Schema V) × (o ≡ some target) × (target.kind ≡ ContentTypeKind.component))
      found_errors none = (λ h. absurd (cc h), λ h. absurd (cc h.1))
      found_errors (some s) =
          let kind =
            unless_iff (is_component_kind s.kind) (path ++ lit ".component")
              (lit "invalid-component") (component_kind_iff s.kind) in
          (λ h. (s, refl, kind.0 h), λ (t, q, k). kind.1 (rw (some_inj s t q) k))

module _ {V N : Type 0} (std : Std V N) (registry : Assoc (Schema V))
    (attributes : Assoc (Attribute V)) where
  target_field_errors-empty_iff :
      (path : Text) (field : Option Text)
      → (target_field_errors std registry attributes path field ≡ [])
        ↔ ((t : Text) → field ≡ some t → In t (keys attributes))
  target_field_errors-empty_iff path none = (λ h t e. absurd (cc e), λ h. refl)
  target_field_errors-empty_iff path (some field) =
      let known =
        unless_iff (contains (keys attributes) field) (path ++ lit ".targetField")
          (lit "missing-target-field") (contains_iff (keys attributes) field) in
      (λ h t e. rw (← some_inj field t e) (known.0 h), λ h. known.1 (h field refl))

  regex_errors-empty_iff :
      (path : Text) (regex : Option Text)
      → (regex_errors std registry attributes path regex ≡ [])
        ↔ ((re : Text) → regex ≡ some re → std.is_regex re ≡ true)
  regex_errors-empty_iff path none = (λ h t e. absurd (cc e), λ h. refl)
  regex_errors-empty_iff path (some regex) =
      let formed =
        unless_iff (std.is_regex regex) (path ++ lit ".regex") (lit "invalid-regex")
          (λ h. h, λ h. h) in
      (λ h t e. rw (← some_inj regex t e) (formed.0 h), λ h. formed.1 (h regex refl))

  type_errors-empty_iff :
      (path : Text) (attr : Attribute V) (t : FieldType)
      → (type_errors std registry attributes path attr t ≡ [])
        ↔ IsTyped std registry attributes attr t
  unfolding type_errors IsTyped
  type_errors-empty_iff path attr FieldType.enumeration = validate_enumeration-empty_iff path attr
  type_errors-empty_iff path attr FieldType.uid =
      target_field_errors-empty_iff path attr.target_field
  type_errors-empty_iff path attr FieldType.relation =
      validate_relation-empty_iff registry path attr
  type_errors-empty_iff path attr FieldType.component =
      let min = number std registry attributes attr.min in
      let max = number std registry attributes attr.max in
      both_iff (component_errors-empty_iff registry path attr.component)
        (when_iff (exceeds min max) path (lit "invalid-range") (exceeds_iff min max))
  type_errors-empty_iff path attr FieldType.dynamiczone =
      both_iff
        (when_iff (is_empty attr.components) (path ++ lit ".components") (lit "empty-dynamiczone")
          (is_empty_iff attr.components))
        (both_iff (member_errors-empty_iff registry path attr.components)
          (validate_dz_collisions-empty_iff registry path attr))
  type_errors-empty_iff path attr FieldType.media = media_errors-empty_iff path attr.allowed_types
  type_errors-empty_iff path attr t = (λ h. tt, λ h. refl)

  attribute_errors-empty_iff :
      (path name : Text) (attr : Attribute V)
      → (attribute_errors std registry attributes path name attr ≡ [])
        ↔ IsAttribute std registry attributes name attr
  unfolding attribute_errors IsFree
  attribute_errors-empty_iff path name attr =
      let identifier =
        unless_iff (is_identifier name) path (lit "invalid-identifier") (λ h. h, λ h. h) in
      let free =
        when_iff (is_reserved reserved_attributes name) path (lit "reserved-attribute")
          (is_reserved_iff reserved_attributes name) in
      let lengths =
        when_iff (exceeds attr.min_length attr.max_length) path (lit "invalid-range")
          (exceeds_iff attr.min_length attr.max_length) in
      let all = both_iff identifier (
        both_iff free (
          both_iff (regex_errors-empty_iff path attr.regex)
            (both_iff lengths (type_errors-empty_iff path attr attr.attr_type)))) in
      (
        λ h.
            let (i, (f, (r, (l, t)))) = all.0 h in
            record { identifier = i; free = f; regex = r; lengths = l; typed = t },
        λ a. all.1 (a.identifier, (a.free, (a.regex, (a.lengths, a.typed)))),
      )

  pub attributes_loop-empty_iff :
      (base : Text) (attrs : Assoc (Attribute V))
      → (attributes_loop std registry attributes base attrs ≡ [])
        ↔ All (λ (name, attr). IsAttribute std registry attributes name attr) attrs
  unfolding attributes_loop
  attributes_loop-empty_iff base [] = (λ h. tt, λ h. refl)
  attributes_loop-empty_iff base ((name, attr) ∷ attrs) =
      both_iff (attribute_errors-empty_iff (base ++ (lit ".attributes." ++ name)) name attr)
        (attributes_loop-empty_iff base attrs)
