-- ===== src/Schema/Validation/Schemas.antt =====
-- crates/core-schema/src/validation.rs, `validate_schemas`: all rules on a set of schemas. Of the
-- sets and maps of names that were seen, which only serve to find repetitions, the keys are kept.
pub mod Names
pub mod Valid
use ferris_cms.Prelude.{
  ◌≡◌, Bool, true, false, not, List, [], ◌∷◌, ◌++◌, Text, lit, contains, Assoc, insert_key,
  if◌then◌else◌,
}
use ferris_cms.Schema.Model.{Schema, table_name}
use ferris_cms.Schema.Validation.{FieldError, error, when, validate_computed_fields}
use ferris_cms.Schema.Validation.Identity.{validate_identity}
use ferris_cms.Schema.Validation.Cycles.{detect_computed_cycles}
use ferris_cms.Schema.Validation.Attributes.{Std, is_component_kind, validate_attributes}

-- the variables of the loop
pub record Seen : Type 0 where
  pub uids : List Text
  pub singulars : List Text
  pub plurals : List Text
  pub tables : List Text

-- `insert` of a set
unfoldable pub insert_name : Text → List Text → List Text
unfolding contains
insert_name n seen = if contains seen n then seen else n ∷ seen

unfoldable pub repeated : List Text → Text → Text → Text → List FieldError
unfolding contains
repeated seen name path code = when (contains seen name) (error path code)

module _ {V : Type 0} where
  -- `by_uid`: of schemas with one uid, the last
  unfoldable pub by_uid : List (Schema V) → Assoc (Schema V) → Assoc (Schema V)
  unfolding insert_key
  by_uid [] m = m
  by_uid (s ∷ schemas) m = by_uid schemas (insert_key s.uid s m)

  -- the two api ids, of a content type
  unfoldable pub api_id_repeated : Seen → Schema V → List FieldError
  unfolding repeated
  api_id_repeated seen schema =
      if is_component_kind schema.kind
      then []
      else repeated seen.singulars schema.info.singular_name
          (schema.uid ++ lit ".info.singularName") (lit "duplicate-api-id")
        ++ repeated seen.plurals schema.info.plural_name (schema.uid ++ lit ".info.pluralName")
            (lit "duplicate-api-id")

  unfoldable pub see : Seen → Schema V → Seen
  unfolding insert_name table_name
  see seen schema = record {
    uids = insert_name schema.uid seen.uids;
    singulars =
        if is_component_kind schema.kind
        then seen.singulars
        else insert_name schema.info.singular_name seen.singulars;
    plurals =
        if is_component_kind schema.kind
        then seen.plurals
        else insert_name schema.info.plural_name seen.plurals;
    tables = insert_name (table_name schema) seen.tables;
  }

module _ {V N : Type 0} (std : Std V N) where
  unfoldable pub validate_computed : Schema V → List FieldError
  unfolding validate_computed_fields detect_computed_cycles
  validate_computed schema =
      validate_computed_fields std.parse_f64 std.trim schema
      ++ detect_computed_cycles std.iter std.parse_f64 schema schema.uid

  -- a round of the loop
  unfoldable pub schema_errors : Assoc (Schema V) → Seen → Schema V → List FieldError
  unfolding repeated validate_identity api_id_repeated table_name validate_attributes
      validate_computed
  schema_errors registry seen schema =
      repeated seen.uids schema.uid schema.uid (lit "duplicate-uid")
      ++ (validate_identity schema
          ++ (api_id_repeated seen schema
              ++ (repeated seen.tables (table_name schema) schema.uid (lit "duplicate-table")
                  ++ (validate_attributes std registry schema ++ validate_computed schema))))

  unfoldable pub schemas_loop : Assoc (Schema V) → Seen → List (Schema V) → List FieldError
  unfolding schema_errors see
  schemas_loop registry seen [] = []
  schemas_loop registry seen (s ∷ schemas) =
      schema_errors registry seen s ++ schemas_loop registry (see seen s) schemas

  unfoldable pub validate_schemas : List (Schema V) → List FieldError
  unfolding schemas_loop by_uid
  validate_schemas schemas =
      schemas_loop (by_uid schemas [])
        (record { uids = []; singulars = []; plurals = []; tables = [] }) schemas
