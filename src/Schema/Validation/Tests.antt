-- ===== src/Schema/Validation/Tests.antt =====
-- Runs of the rules on cycles, attributes and sets of schemas, and the instances of the theorems.
use mathlib.Core.Bool.{decide}
use ferris_cms.Prelude.{
  ◌≡◌, refl, ◌↔◌, true, none, some, List, [], ◌∷◌, ◌++◌, Text, lit, text_eq, In, All,
}
use ferris_cms.Domain.Field.{FieldType}
use ferris_cms.Domain.Kind.{one_to_many, many_to_many}
use ferris_cms.Domain.Naming.{collection_table}
use ferris_cms.Schema.Samples.{attribute, schema, formula}
use ferris_cms.Schema.Model.{Schema}
use ferris_cms.Schema.Expression.Ast.{columns}
use ferris_cms.Schema.Expression.Parser.{
  bump, binary_round, unary_match, primary_match, name_match, args_match, comma_match, close,
  parse_expr, parse_expression,
}
use ferris_cms.Schema.Validation.{error}
use ferris_cms.Schema.Validation.Cycles.{detect_computed_cycles}
use ferris_cms.Schema.Validation.Cycles.Built.{IsField}
use ferris_cms.Schema.Validation.Cycles.Sorted.{IsIter}
use ferris_cms.Schema.Validation.Cycles.Order.{
  IsEvaluationOrder, circular, detect_computed_cycles-empty_iff, detect_computed_cycles-In_iff,
}
use ferris_cms.Schema.Validation.Attributes.{Std}
use ferris_cms.Schema.Validation.Schemas.{by_uid, validate_schemas}
use ferris_cms.Schema.Validation.Schemas.Valid.{AreDistinct, IsValid, validate_schemas-empty_iff}

abbrev std : Std Text Text
std = record {
  parse_f64 = some;
  trim = λ s. s;
  as_i64 = λ v. none;
  is_regex = λ re. true;
  iter = λ m. m;
}

std-IsIter : IsIter std.iter
std-IsIter m = ((λ e. (λ h. h, λ h. h)), λ h. h)

-- `a` and `b` read one another; `a` also reads `c`, which reads nothing
abbrev looping : Schema Text
looping = schema (lit "i") (
    (lit "a", formula (lit "b + c"))
    ∷ (lit "b", formula (lit "a"))
    ∷ (lit "c", formula (lit "1"))
    ∷ [])

-- `c` is reported too, although it is not part of the circle.
looping-detect_computed_cycles :
    detect_computed_cycles std.iter some looping (lit "i")
    ≡ circular (lit "i") (lit "a")
      ∷ circular (lit "i") (lit "b")
      ∷ circular (lit "i") (lit "c")
      ∷ []
unfolding detect_computed_cycles text_eq columns parse_expression parse_expr unary_match bump
    primary_match name_match args_match binary_round comma_match close
looping-detect_computed_cycles = refl

detect_computed_cycles-empty_iff_example :
    (detect_computed_cycles std.iter some looping (lit "i") ≡ []) ↔ (
      (order : List Text) × IsEvaluationOrder some looping.attributes order
      × ((n : Text) → IsField looping.attributes n → In n order))
detect_computed_cycles-empty_iff_example =
    detect_computed_cycles-empty_iff some std.iter std-IsIter looping (lit "i")

detect_computed_cycles-In_iff_example :
    In (circular (lit "i") (lit "c")) (detect_computed_cycles std.iter some looping (lit "i")) ↔ (
      IsField looping.attributes (lit "c")
      × (¬ (
          (order : List Text) × IsEvaluationOrder some looping.attributes order
          × In (lit "c") order)))
detect_computed_cycles-In_iff_example =
    detect_computed_cycles-In_iff some std.iter std-IsIter looping (lit "i") (lit "c")

-- a relation and its inverse, whose kind is wrong
abbrev related : List (Schema Text)
related =
    schema (lit "api::a.a") (
      (
        lit "bs",
        record (attribute FieldType.relation) {
          relation = some one_to_many;
          target = some (lit "api::a.a");
          inversed_by = some (lit "of");
        },
      )
      ∷ (
        lit "of",
        record (attribute FieldType.relation) {
          relation = some many_to_many;
          target = some (lit "api::a.a");
        },
      )
      ∷ [])
    ∷ []

related-validate_schemas :
    validate_schemas std related
    ≡ error (lit "api::a.a.attributes.bs.inversedBy") (lit "inverse-kind-mismatch")
unfolding validate_schemas text_eq columns decide
related-validate_schemas = refl

-- a schema that is given twice, with an attribute of a reserved name
abbrev twice : List (Schema Text)
twice = let s = schema (lit "i") ((lit "createdAt", attribute FieldType.date) ∷ []) in s ∷ s ∷ []

twice-validate_schemas :
    validate_schemas std twice
    ≡ error (lit "i.attributes.createdAt") (lit "reserved-attribute")
      ++ (error (lit "i") (lit "duplicate-uid")
          ++ (error (lit "i.info.singularName") (lit "duplicate-api-id")
              ++ (error (lit "i.info.pluralName") (lit "duplicate-api-id")
                  ++ (error (lit "i") (lit "duplicate-table")
                      ++ error (lit "i.attributes.createdAt") (lit "reserved-attribute")))))
unfolding validate_schemas text_eq columns collection_table
twice-validate_schemas = refl

validate_schemas-empty_iff_example :
    (validate_schemas std related ≡ [])
    ↔ (AreDistinct related × All (IsValid std (by_uid related [])) related)
validate_schemas-empty_iff_example = validate_schemas-empty_iff std std-IsIter related
