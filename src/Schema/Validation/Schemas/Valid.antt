-- ===== src/Schema/Validation/Schemas/Valid.antt =====
-- When a set of schemas is accepted.
use ferris_cms.Prelude.{◌≡◌, refl, ◌↔◌, List, [], ◌∷◌, map, Text, lit, Assoc, In, Nodup, All}
use ferris_cms.Schema.Model.{Schema, table_name}
use ferris_cms.Schema.Validation.Relations.{both_iff}
use ferris_cms.Schema.Validation.Identity.{IsIdentified, validate_identity-empty_iff}
use ferris_cms.Schema.Validation.Computed.{IsSound, validate_computed_fields-empty_iff}
use ferris_cms.Schema.Validation.Cycles.Built.{IsField}
use ferris_cms.Schema.Validation.Cycles.Sorted.{IsIter}
use ferris_cms.Schema.Validation.Cycles.Order.{IsEvaluationOrder, detect_computed_cycles-empty_iff}
use ferris_cms.Schema.Validation.Attributes.{Std, validate_attributes}
use ferris_cms.Schema.Validation.Attributes.Accepted.{IsAttribute, attributes_loop-empty_iff}
use ferris_cms.Schema.Validation.Schemas.{
  Seen, by_uid, see, validate_computed, schema_errors, schemas_loop, validate_schemas,
}
use ferris_cms.Schema.Validation.Schemas.Names.{
  IsNew, content_names, repeated-empty_iff, api_id_repeated-empty_iff, AreNew, IsFresh, AreNew-nil,
  AreNew-cons_iff,
}

module _ {V N : Type 0} (std : Std V N) (registry : Assoc (Schema V)) where
  -- The identity, the attributes and the computed fields are accepted, and these have an order of
  -- evaluation.
  pub record IsValid (schema : Schema V) : Type 0 where
    pub identified : IsIdentified schema.kind schema
    pub attributes :
        All (λ (name, attr). IsAttribute std registry schema.attributes name attr) schema.attributes
    pub computed :
        All
          (λ (name, attr). IsSound std.parse_f64 std.trim schema.attributes name attr)
          schema.attributes
    pub ordered :
        (order : List Text) × IsEvaluationOrder std.parse_f64 schema.attributes order
        × ((n : Text) → IsField schema.attributes n → In n order)

module _ {V N : Type 0} (std : Std V N) (fair : IsIter std.iter) (registry : Assoc (Schema V)) where
  validate_computed-empty_iff :
      (s : Schema V)
      → (validate_computed std s ≡ []) ↔ (
          All (λ (name, attr). IsSound std.parse_f64 std.trim s.attributes name attr) s.attributes
          × ((order : List Text) × IsEvaluationOrder std.parse_f64 s.attributes order
              × ((n : Text) → IsField s.attributes n → In n order)))
  unfolding validate_computed
  validate_computed-empty_iff s =
      both_iff (validate_computed_fields-empty_iff std.parse_f64 std.trim s)
        (detect_computed_cycles-empty_iff std.parse_f64 std.iter fair s s.uid)

  validate_attributes-empty_iff :
      (s : Schema V)
      → (validate_attributes std registry s ≡ [])
        ↔ All (λ (name, attr). IsAttribute std registry s.attributes name attr) s.attributes
  unfolding validate_attributes
  validate_attributes-empty_iff s =
      attributes_loop-empty_iff std registry s.attributes s.uid s.attributes

  schema_errors-empty_iff :
      (seen : Seen) (s : Schema V)
      → (schema_errors std registry seen s ≡ []) ↔ (IsFresh seen s × IsValid std registry s)
  unfolding schema_errors
  schema_errors-empty_iff seen s =
      let all = both_iff (repeated-empty_iff seen.uids s.uid s.uid (lit "duplicate-uid")) (
        both_iff (validate_identity-empty_iff s) (
          both_iff (api_id_repeated-empty_iff seen s) (
            both_iff (repeated-empty_iff seen.tables (table_name s) s.uid (lit "duplicate-table"))
              (both_iff (validate_attributes-empty_iff s) (validate_computed-empty_iff s))))) in
      (
        λ h.
            let (u, (i, ((p, q), (t, (a, (c, o)))))) = all.0 h in
            (
              record { uid = u; singular = p; plural = q; table = t },
              record { identified = i; attributes = a; computed = c; ordered = o },
            ),
        λ (f, v). all.1 (
          f.uid,
          (
            v.identified,
            ((f.singular, f.plural), (f.table, (v.attributes, (v.computed, v.ordered)))),
          ),
        ),
      )

  schemas_loop-empty_iff :
      (seen : Seen) (schemas : List (Schema V))
      → (schemas_loop std registry seen schemas ≡ [])
        ↔ (AreNew seen schemas × All (IsValid std registry) schemas)
  unfolding schemas_loop
  schemas_loop-empty_iff seen [] = (λ h. (AreNew-nil seen, tt), λ h. refl)
  schemas_loop-empty_iff seen (s ∷ schemas) =
      let all =
        both_iff (schema_errors-empty_iff seen s) (schemas_loop-empty_iff (see seen s) schemas) in
      let new = AreNew-cons_iff seen s schemas in
      (
        λ h. let ((f, v), (a, r)) = all.0 h in (new.0 (f, a), (v, r)),
        λ (a, (v, r)). let (f, a') = new.1 a in all.1 ((f, v), (a', r)),
      )

-- No name of a kind stands twice: uids and tables, and the api ids of content types.
pub record AreDistinct {V : Type 0} (schemas : List (Schema V)) : Type 0 where
  pub uids : Nodup (map (λ s. s.uid) schemas)
  pub singulars : Nodup (content_names (λ s. s.info.singular_name) schemas)
  pub plurals : Nodup (content_names (λ s. s.info.plural_name) schemas)
  pub tables : Nodup (map table_name schemas)

module _ {V N : Type 0} (std : Std V N) (fair : IsIter std.iter) where
  -- A set of schemas has no error exactly when their uids, their tables and the singular and plural
  -- api ids of the content types are distinct, and each schema is valid: its identity, its attributes
  -- and its computed fields are accepted, and the computed fields have an order of evaluation.
  pub validate_schemas-empty_iff :
      (schemas : List (Schema V))
      → (validate_schemas std schemas ≡ [])
        ↔ (AreDistinct schemas × All (IsValid std (by_uid schemas [])) schemas)
  unfolding validate_schemas IsNew
  validate_schemas-empty_iff schemas =
      let none : Seen = record { uids = []; singulars = []; plurals = []; tables = [] } in
      let loop = schemas_loop-empty_iff std fair (by_uid schemas []) none schemas in
      (
        λ h.
            let (a, v) = loop.0 h in
            (
              record {
                uids = a.uids.0;
                singulars = a.singulars.0;
                plurals = a.plurals.0;
                tables = a.tables.0;
              },
              v,
            ),
        λ (d, v). loop.1 (
          record {
            uids = (d.uids, λ x i k. k);
            singulars = (d.singulars, λ x i k. k);
            plurals = (d.plurals, λ x i k. k);
            tables = (d.tables, λ x i k. k);
          },
          v,
        ),
      )
