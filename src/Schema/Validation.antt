-- ===== src/Schema/Validation.antt =====
-- crates/core-schema/src/validation.rs: the definitions of computed fields. `N` is the type `f64`,
-- `V` the type of JSON values and `trim` is `str::trim`. An error keeps its path and its code.
pub mod Relations
pub mod Computed
pub mod Enumeration
pub mod Identity
pub mod Cycles
pub mod Attributes
pub mod Schemas
mod Tests
use mathlib.Core.Bool.{decide}
use ferris_cms.Prelude.{
  ◌≡◌, Bool, true, false, not, ◌&&◌, ◌||◌, Option, none, some, List, [], ◌∷◌, ◌++◌, is_empty, Text,
  lit, text_eq, contains, Assoc, lookup, if◌then◌else◌,
}
use ferris_cms.Domain.Field.{FieldType, FieldType-discrete, is_scalar_column}
use ferris_cms.Schema.Model.{Attribute, Schema, supports_computed}
use ferris_cms.Schema.Expression.Ast.{
  Expr, Exprs, column, number, str, bool, null, relation_column, relation_aggregate, binary, unary,
  func, nil, cons, columns,
}
use ferris_cms.Schema.Expression.Parser.{Parsed, ok, err, out_of_fuel, parse_expression}

pub record FieldError : Type 0 where
  pub path : Text
  pub code : Text

abbrev pub error : Text → Text → List FieldError
error path code = record { path = path; code = code } ∷ []

-- the errors of a rule, if it is broken
abbrev pub when : Bool → List FieldError → List FieldError
when b errors = if b then errors else []

abbrev pub is_some {ℓ} : {A : Type ℓ} → Option A → Bool
is_some none = false
is_some (some _) = true

abbrev pub is_relation : FieldType → Bool
is_relation FieldType.relation = true
is_relation _ = false

abbrev pub empty_column : Option Text → Bool
empty_column none = false
empty_column (some c) = is_empty c

module _ {V : Type 0} where
  unfoldable pub aggregate_errors : Text → Option (Attribute V) → Option Text → List FieldError
  aggregate_errors path none field = error (path ++ lit ".expression") (lit "missing-relation")
  aggregate_errors path (some attr) field =
      if not (is_relation attr.attr_type)
      then error (path ++ lit ".expression") (lit "invalid-relation")
      else if empty_column field
      then error (path ++ lit ".expression") (lit "missing-relation-field")
      else []

module _ {V N : Type 0} (attributes : Assoc (Attribute V)) where
  -- `validate_relation_expression`
  unfoldable mutual
    unfolding aggregate_errors

    pub relation_errors : Text → Expr N → List FieldError
    relation_errors path (relation_aggregate relation field _) =
        aggregate_errors path (lookup relation attributes) field
    relation_errors path (relation_column _ _) =
        error (path ++ lit ".expression") (lit "invalid-relation-expression")
    relation_errors path (binary _ left right) =
        relation_errors path left ++ relation_errors path right
    relation_errors path (unary _ e) = relation_errors path e
    relation_errors path (func _ args) = args_errors path args
    relation_errors path (column _) = []
    relation_errors path (number _) = []
    relation_errors path (str _) = []
    relation_errors path (bool _) = []
    relation_errors path null = []

    pub args_errors : Text → Exprs N → List FieldError
    args_errors path nil = []
    args_errors path (cons e args) = relation_errors path e ++ args_errors path args

module _ {V : Type 0} (attributes : Assoc (Attribute V)) where
  abbrev usable : Option (Attribute V) → Text → List FieldError
  usable none path = error path (lit "missing-dependency")
  usable (some d) path =
      when (not (is_scalar_column d.attr_type || d.computed))
        (error path (lit "invalid-dependency"))

  -- the fields that the computed field `name` depends on, as declared and as its expression has them
  unfoldable pub reference_errors : Text → Text → List Text → List FieldError
  reference_errors path name [] = []
  reference_errors path name (d ∷ deps) =
      (if text_eq d name
        then error path (lit "circular-dependency")
        else usable (lookup d attributes) path)
      ++ reference_errors path name deps

module _ {V : Type 0} where
  -- the settings that a computed field may not have
  unfoldable pub setting_errors : Text → Attribute V → List FieldError
  setting_errors path attr =
      when (not (supports_computed attr)) (error path (lit "computed-unsupported-type"))
      ++ (when attr.required (error (path ++ lit ".required") (lit "computed-required"))
          ++ (when (is_some attr.default) (error (path ++ lit ".default") (lit "computed-default"))
              ++ when attr.unique (error (path ++ lit ".unique") (lit "computed-unique"))))

module _ {V N : Type 0} (parse_f64 : Text → Option N) (trim : Text → Text)
    (attributes : Assoc (Attribute V)) where
  abbrev trimmed : Option Text → Option Text
  trimmed none = none
  trimmed (some s) = if is_empty (trim s) then none else some (trim s)

  unfoldable pub parsed_errors : Text → Text → Parsed (Expr N) → List FieldError
  unfolding reference_errors columns relation_errors
  parsed_errors path name (err _) = error (path ++ lit ".expression") (lit "invalid-expression")
  parsed_errors path name (ok e) =
      reference_errors attributes (path ++ lit ".expression") name (columns e)
      ++ relation_errors attributes path e
  parsed_errors path name out_of_fuel = []

  abbrev source_errors : Text → Text → Option Text → List FieldError
  source_errors path name none = error (path ++ lit ".expression") (lit "missing-expression")
  source_errors path name (some src) = parsed_errors path name (parse_expression parse_f64 src)

  -- a round of the loop of `validate_computed`
  unfoldable pub computed_errors : Text → Text → Attribute V → List FieldError
  unfolding setting_errors parsed_errors reference_errors
  computed_errors path name attr =
      if not attr.computed
      then when (is_some attr.expression || not (is_empty attr.dependencies))
          (error path (lit "unexpected-computed-props"))
      else setting_errors path attr
        ++ (reference_errors attributes (path ++ lit ".dependencies") name attr.dependencies
            ++ source_errors path name (trimmed attr.expression))

  unfoldable pub computed_loop : Text → Assoc (Attribute V) → List FieldError
  unfolding computed_errors
  computed_loop base [] = []
  computed_loop base ((name, attr) ∷ rest) =
      computed_errors (base ++ (lit ".attributes." ++ name)) name attr ++ computed_loop base rest

-- the loop of `validate_computed` over the attributes of a schema
unfoldable pub validate_computed_fields :
    {V N : Type 0} → (Text → Option N) → (Text → Text) → Schema V → List FieldError
unfolding computed_loop
validate_computed_fields parse_f64 trim schema =
    computed_loop parse_f64 trim schema.attributes schema.uid schema.attributes
