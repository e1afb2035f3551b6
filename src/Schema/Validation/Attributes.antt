-- ===== src/Schema/Validation/Attributes.antt =====
-- crates/core-schema/src/validation.rs: the rules on the attributes of a schema, those on relations
-- and dynamic zones included. `registry` is the map `by_uid`.
pub mod Related
pub mod Zones
pub mod Accepted
use mathlib.Core.Bool.{decide}
use ferris_cms.Prelude.{
  ◌≡◌, ℕ, Bool, true, false, not, ◌&&◌, ◌||◌, Option, none, some, List, [], ◌∷◌, ◌++◌, is_empty,
  any, Text, lit, text_eq, texts_eq, contains, Assoc, keys, lookup, insert_key, if◌then◌else◌,
}
use ferris_cms.Prelude.Int.{ℤ, lt_int}
use ferris_cms.Domain.Naming.{snake_case}
use ferris_cms.Domain.Kind.{
  ContentTypeKind, RelationKind, RelationKind-discrete, one_way, one_to_one, one_to_many,
  many_to_one, many_to_many, many_way,
}
use ferris_cms.Domain.Uid.{Uid}
use ferris_cms.Domain.Field.{FieldType, FieldType-discrete}
use ferris_cms.Schema.Model.{Attribute, Schema}
use ferris_cms.Schema.Validation.{FieldError, error, when, is_relation}
use ferris_cms.Schema.Validation.Enumeration.{is_identifier, validate_enumeration}

-- What the rules use of the standard library, of serde_json and of the crate regex: numbers, `trim`,
-- `Value::as_i64`, whether a regular expression is well formed, and the order of a hash map.
pub record Std (V N : Type 0) : Type 0 where
  pub parse_f64 : Text → Option N
  pub trim : Text → Text
  pub as_i64 : V → Option ℤ
  pub is_regex : Text → Bool
  pub iter : Assoc ℕ → Assoc ℕ

-- `RESERVED_ATTRIBUTES`
abbrev pub reserved_attributes : List Text
reserved_attributes =
    lit "id"
    ∷ lit "document_id"
    ∷ lit "documentId"
    ∷ lit "locale"
    ∷ lit "publication_state"
    ∷ lit "created_at"
    ∷ lit "updated_at"
    ∷ lit "published_at"
    ∷ lit "created_by_id"
    ∷ lit "updated_by_id"
    ∷ lit "createdAt"
    ∷ lit "updatedAt"
    ∷ lit "publishedAt"
    ∷ lit "createdBy"
    ∷ lit "updatedBy"
    ∷ lit "sync_version"
    ∷ lit "origin_node_id"
    ∷ lit "deleted_at"
    ∷ []

unfoldable pub dual_of : RelationKind → Option RelationKind
dual_of one_to_one = some one_to_one
dual_of one_to_many = some many_to_one
dual_of many_to_one = some one_to_many
dual_of many_to_many = some many_to_many
dual_of one_way = none
dual_of many_way = none

abbrev pub is_component_kind : ContentTypeKind → Bool
is_component_kind ContentTypeKind.component = true
is_component_kind _ = false

-- `inversed_by.or(mapped_by)`
abbrev pub or_else : {A : Type 0} → Option A → Option A → Option A
or_else (some a) b = some a
or_else none b = b

unfoldable pub kind_is : Option RelationKind → RelationKind → Bool
unfolding RelationKind-discrete
kind_is none dual = false
kind_is (some kind) dual = decide (RelationKind-discrete kind dual)

-- the type and the values of a field of a component
pub record Signature : Type 0 where
  pub uid : Uid
  pub field_type : FieldType
  pub enum_values : List Text

module _ {V : Type 0} where
  -- the `match` on the inverse field
  unfoldable pub inverse_errors : Text → RelationKind → Option (Attribute V) → List FieldError
  unfolding kind_is
  inverse_errors path dual none = error (path ++ lit ".inversedBy") (lit "missing-inverse-field")
  inverse_errors path dual (some inv) =
      when (not (is_relation inv.attr_type) || not (kind_is inv.relation dual))
        (error (path ++ lit ".inversedBy") (lit "inverse-kind-mismatch"))

  unfoldable pub paired_errors :
      Text → Option Text → Option RelationKind → Assoc (Attribute V) → List FieldError
  unfolding inverse_errors lookup
  paired_errors path none dual attributes = []
  paired_errors path (some inverse) none attributes = []
  paired_errors path (some inverse) (some dual) attributes =
      inverse_errors path dual (lookup inverse attributes)

  -- after the `let else` for the target's schema
  unfoldable pub target_errors :
      Text → Attribute V → RelationKind → Option (Schema V) → List FieldError
  unfolding paired_errors dual_of
  target_errors path attr kind none = error (path ++ lit ".target") (lit "missing-relation-target")
  target_errors path attr kind (some target) =
      if is_component_kind target.kind
      then error (path ++ lit ".target") (lit "invalid-relation-target")
      else paired_errors path (or_else attr.inversed_by attr.mapped_by) (dual_of kind)
          target.attributes

module _ {V : Type 0} (registry : Assoc (Schema V)) where
  abbrev find : Option Uid → Option (Schema V)
  find none = none
  find (some uid) = lookup uid registry

  abbrev kind_errors : Text → Attribute V → Option RelationKind → Option Uid → List FieldError
  kind_errors path attr none target = error (path ++ lit ".relation") (lit "missing-relation-kind")
  kind_errors path attr (some kind) none =
      error (path ++ lit ".target") (lit "missing-relation-target")
  kind_errors path attr (some kind) (some uid) = target_errors path attr kind (lookup uid registry)

  unfoldable pub validate_relation : Text → Attribute V → List FieldError
  unfolding target_errors lookup
  validate_relation path attr = kind_errors path attr attr.relation attr.target

  -- the fields of the components of a zone, in the order of the two loops
  unfoldable pub component_fields : Uid → Assoc (Attribute V) → List (Text × Signature)
  component_fields uid [] = []
  component_fields uid ((name, field) ∷ fields) =
      (name, record { uid = uid; field_type = field.attr_type; enum_values = field.enum_values })
      ∷ component_fields uid fields

  unfoldable pub zone_fields : List Uid → List (Text × Signature)
  unfolding component_fields lookup
  zone_fields [] = []
  zone_fields (uid ∷ uids) =
      (elim (lookup uid registry) [ some comp ↦ component_fields uid comp.attributes | none ↦ [] ])
      ++ zone_fields uids

-- whether a field conflicts with one of the same name
unfoldable pub conflicts : Signature → Signature → Bool
unfolding FieldType-discrete texts_eq
conflicts prev sig =
    not (decide (FieldType-discrete prev.field_type sig.field_type))
    || (decide (FieldType-discrete sig.field_type FieldType.enumeration)
        && not (texts_eq prev.enum_values sig.enum_values))

-- the loops over the fields; `seen` has the first field of each name
unfoldable pub collision_errors : Text → Assoc Signature → List (Text × Signature) → List FieldError
unfolding conflicts lookup insert_key
collision_errors path seen [] = []
collision_errors path seen ((name, sig) ∷ fields) =
    (elim (lookup name seen) [
      | none ↦ []
      | some prev ↦
          when (conflicts prev sig) (error (path ++ lit ".components") (lit "dz-field-collision"))
    ])
    ++ collision_errors path
        (elim (lookup name seen) [ none ↦ insert_key name sig seen | some prev ↦ seen ]) fields

module _ {V : Type 0} (registry : Assoc (Schema V)) where
  unfoldable pub validate_dz_collisions : Text → Attribute V → List FieldError
  unfolding collision_errors zone_fields
  validate_dz_collisions path attr = collision_errors path [] (zone_fields registry attr.components)

  abbrev is_component_schema : Option (Schema V) → Bool
  is_component_schema none = false
  is_component_schema (some s) = is_component_kind s.kind

  unfoldable pub member_errors : Text → List Uid → List FieldError
  unfolding lookup
  member_errors path [] = []
  member_errors path (uid ∷ uids) =
      when (not (is_component_schema (lookup uid registry)))
        (error (path ++ lit ".components") (lit "missing-component"))
      ++ member_errors path uids

  unfoldable pub component_errors : Text → Option (Schema V) → List FieldError
  component_errors path none = error (path ++ lit ".component") (lit "missing-component")
  component_errors path (some target) =
      when (not (is_component_kind target.kind))
        (error (path ++ lit ".component") (lit "invalid-component"))

-- `min > max`, where both are given
unfoldable pub exceeds : Option ℤ → Option ℤ → Bool
exceeds (some min) (some max) = lt_int max min
exceeds (some min) none = false
exceeds none max = false

abbrev media_types : List Text
media_types = lit "images" ∷ lit "videos" ∷ lit "audios" ∷ lit "files" ∷ []

unfoldable pub media_errors : Text → List Text → List FieldError
unfolding contains
media_errors path [] = []
media_errors path (t ∷ types) =
    when (not (contains media_types t))
      (error (path ++ lit ".allowedTypes") (lit "invalid-media-type"))
    ++ media_errors path types

-- `RESERVED_ATTRIBUTES.iter().any(|r| snake_case(r) == snake_case(name))`
unfoldable pub is_reserved : List Text → Text → Bool
unfolding snake_case text_eq
is_reserved [] name = false
is_reserved (r ∷ rs) name = text_eq (snake_case r) (snake_case name) || is_reserved rs name

module _ {V N : Type 0} (std : Std V N) (registry : Assoc (Schema V))
    (attributes : Assoc (Attribute V)) where
  abbrev number : Option V → Option ℤ
  number none = none
  number (some v) = std.as_i64 v

  abbrev target_field_errors : Text → Option Text → List FieldError
  target_field_errors path none = []
  target_field_errors path (some target) =
      when (not (contains (keys attributes) target))
        (error (path ++ lit ".targetField") (lit "missing-target-field"))

  -- the `match` on the type of the attribute
  unfoldable pub type_errors : Text → Attribute V → FieldType → List FieldError
  unfolding validate_enumeration validate_relation component_errors exceeds member_errors
      validate_dz_collisions media_errors contains lookup
  type_errors path attr FieldType.enumeration = validate_enumeration path attr
  type_errors path attr FieldType.uid = target_field_errors path attr.target_field
  type_errors path attr FieldType.relation = validate_relation registry path attr
  type_errors path attr FieldType.component =
      component_errors registry path (find registry attr.component)
      ++ when (exceeds (number attr.min) (number attr.max)) (error path (lit "invalid-range"))
  type_errors path attr FieldType.dynamiczone =
      when (is_empty attr.components) (error (path ++ lit ".components") (lit "empty-dynamiczone"))
      ++ (member_errors registry path attr.components ++ validate_dz_collisions registry path attr)
  type_errors path attr FieldType.media = media_errors path attr.allowed_types
  type_errors path attr _ = []

  abbrev regex_errors : Text → Option Text → List FieldError
  regex_errors path none = []
  regex_errors path (some re) =
      when (not (std.is_regex re)) (error (path ++ lit ".regex") (lit "invalid-regex"))

  -- a round of the loop of `validate_attributes`
  unfoldable pub attribute_errors : Text → Text → Attribute V → List FieldError
  unfolding type_errors is_identifier is_reserved exceeds
  attribute_errors path name attr =
      when (not (is_identifier name)) (error path (lit "invalid-identifier"))
      ++ (when (is_reserved reserved_attributes name) (error path (lit "reserved-attribute"))
          ++ (regex_errors path attr.regex
              ++ (when (exceeds attr.min_length attr.max_length) (error path (lit "invalid-range"))
                  ++ type_errors path attr attr.attr_type)))

  unfoldable pub attributes_loop : Text → Assoc (Attribute V) → List FieldError
  unfolding attribute_errors
  attributes_loop base [] = []
  attributes_loop base ((name, attr) ∷ rest) =
      attribute_errors (base ++ (lit ".attributes." ++ name)) name attr ++ attributes_loop base rest

unfoldable pub validate_attributes :
    {V N : Type 0} → Std V N → Assoc (Schema V) → Schema V → List FieldError
unfolding attributes_loop
validate_attributes std registry schema =
    attributes_loop std registry schema.attributes schema.uid schema.attributes
