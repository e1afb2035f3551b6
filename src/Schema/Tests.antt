-- ===== src/Schema/Tests.antt =====
-- Runs of the diff, the parser and the rules on computed fields, and the instances of the
-- theorems. A JSON value is its text, and a number is the text that it was read from.
use ferris_cms.Prelude.{
  ◌++◌, contains, text_eq, ◌≡◌, ◌≢◌, refl, ◌↔◌, ◌⊎◌, inl, inr, true, arith, false, none, some, List,
  [], ◌∷◌, Text, lit, keys, lookup, In, Nodup, All,
}
use ferris_cms.Domain.Field.{FieldType, string, text, integer, is_scalar_column}
use ferris_cms.Domain.Kind.{collection_type}
use ferris_cms.Schema.Samples.{attribute, schema, formula}
use ferris_cms.Schema.Model.{Attribute, Schema, Text-discrete, supports_computed}
use ferris_cms.Schema.Diff.{diff, diff_registry, is_noop}
use ferris_cms.Schema.Diff.Patch.{patched, diff-patched, is_noop-diff_iff}
use ferris_cms.Schema.Diff.Registry.{IsMarked, schema_uids, diff_uids, diff_registry-covers}
use ferris_cms.Schema.Expression.Ast.{column, number, binary, relation_aggregate, mul, add, count}
use ferris_cms.Schema.Expression.Parser.{
  ok, out_of_fuel, bump, close, binary_round, unary_match, primary_match, name_match, args_match,
  comma_match, parse_expr, parse_expression,
}
use ferris_cms.Schema.Aggregates.{expression_of, computed_field_has_relation_aggregate}
use ferris_cms.Schema.Aggregates.Chain.{IsChain, computed_field_has_relation_aggregate-eq-true_iff}
use ferris_cms.Schema.Validation.{error, validate_computed_fields, setting_errors}
use ferris_cms.Schema.Validation.Computed.{IsSound, validate_computed_fields-empty_iff}
use ferris_cms.Schema.Validation.Enumeration.{
  is_identifier, validate_enumeration, validate_enumeration-empty_iff,
}
use ferris_cms.Schema.Validation.Identity.{
  IsIdentified, validate_identity, validate_identity-empty_iff,
}
use ferris_cms.Schema.Expression.Ast.Columns.{Mentions, columns-In_iff}
use ferris_cms.Schema.Expression.Ast.{columns, has_relation_aggregate}
use ferris_cms.Schema.Expression.Parser.Total.{parse_expression_returns}

-- `b` is removed, `c` is added, and `a` becomes a number
abbrev before : Schema Text
before = schema (lit "s") ((lit "a", attribute string) ∷ (lit "b", attribute text) ∷ [])

abbrev after : Schema Text
after = schema (lit "s") ((lit "a", attribute integer) ∷ (lit "c", attribute text) ∷ [])

abbrev other : Schema Text
other = schema (lit "t") []

after-distinct : Nodup (keys after.attributes)
after-distinct = (λ m. elim m [ inl e ↦ absurd (ground (arith, e)) | inr k ↦ k ], (λ m. m, tt))

diff-patched_example :
    patched before.attributes (diff Text-discrete (some before) after) (lit "a")
    ≡ lookup (lit "a") after.attributes
diff-patched_example = diff-patched Text-discrete before after (lit "a") after-distinct

is_noop-diff_iff_example :
    (is_noop (diff Text-discrete (some before) after) ≡ true)
    ↔ ((n : Text) → lookup n before.attributes ≡ lookup n after.attributes)
is_noop-diff_iff_example = is_noop-diff_iff Text-discrete before after after-distinct

abbrev current : List (Schema Text)
current = before ∷ other ∷ []

current-distinct : Nodup (schema_uids current)
current-distinct = (λ m. elim m [ inl e ↦ absurd (ground (arith, e)) | inr k ↦ k ], (λ m. m, tt))

desired-distinct : Nodup (schema_uids (after ∷ []))
desired-distinct = (λ m. m, tt)

diff_registry-covers_example :
    Nodup (diff_uids (diff_registry Text-discrete current (after ∷ [])))
    × ((u : Text)
        → In u (diff_uids (diff_registry Text-discrete current (after ∷ [])))
          ↔ (In u (schema_uids current) ⊎ In u (schema_uids (after ∷ []))))
    × All (IsMarked Text-discrete (after ∷ [])) (diff_registry Text-discrete current (after ∷ []))
diff_registry-covers_example =
    diff_registry-covers Text-discrete current (after ∷ []) current-distinct desired-distinct

-- the precedence of the operators, a function and an aggregate
product-parse_expression :
    parse_expression some (lit "quantity * price + 1")
    ≡ ok (
        binary add (binary mul (column (lit "quantity")) (column (lit "price"))) (number (lit "1")))
unfolding parse_expression parse_expr unary_match bump primary_match name_match args_match
    binary_round comma_match close
product-parse_expression = refl

aggregate-parse_expression :
    parse_expression {N = Text} some (lit "count(items)")
    ≡ ok (relation_aggregate (lit "items") none count)
unfolding parse_expression parse_expr unary_match bump primary_match name_match args_match
    binary_round comma_match close
aggregate-parse_expression = refl

-- What follows a byte that begins no token is not read.
lexer_error-parse_expression :
    parse_expression {N = Text} some (lit "a $ b") ≡ ok (column (lit "a"))
unfolding parse_expression parse_expr unary_match bump primary_match name_match args_match
    binary_round comma_match close
lexer_error-parse_expression = refl

parse_expression_returns_example : parse_expression {N = Text} some (lit "f((a, -1") ≢ out_of_fuel
parse_expression_returns_example = parse_expression_returns some (lit "f((a, -1")

columns-In_iff_example :
    Nodup (columns {N = Text} (binary add (column (lit "a")) (column (lit "a"))))
    × ((x : Text)
        → In x (columns {N = Text} (binary add (column (lit "a")) (column (lit "a"))))
          ↔ Mentions {N = Text} x (binary add (column (lit "a")) (column (lit "a"))))
columns-In_iff_example = columns-In_iff (binary add (column (lit "a")) (column (lit "a")))

-- `total` is sound; `bad` reads a field that is not there
abbrev invoice : Schema Text
invoice =
    schema (lit "i")
      ((lit "price", attribute integer) ∷ (lit "total", formula (lit "price * 2")) ∷ [])

abbrev broken : Schema Text
broken = schema (lit "i") ((lit "bad", formula (lit "cost")) ∷ [])

invoice-validate_computed_fields : validate_computed_fields some (λ s. s) invoice ≡ []
unfolding validate_computed_fields setting_errors supports_computed contains lookup is_scalar_column
    parse_expression parse_expr unary_match bump primary_match name_match binary_round
invoice-validate_computed_fields = refl

broken-validate_computed_fields :
    validate_computed_fields some (λ s. s) broken
    ≡ error (lit "i.attributes.bad.expression") (lit "missing-dependency")
unfolding validate_computed_fields setting_errors supports_computed contains lookup is_scalar_column
    parse_expression parse_expr unary_match bump primary_match name_match binary_round
broken-validate_computed_fields = refl

validate_computed_fields-empty_iff_example :
    (validate_computed_fields some (λ s. s) invoice ≡ [])
    ↔ All (λ (name, attr). IsSound some (λ s. s) invoice.attributes name attr) invoice.attributes
validate_computed_fields-empty_iff_example =
    validate_computed_fields-empty_iff some (λ s. s) invoice

-- `twice` rests on an aggregate by way of `total`, and `a` and `b` mention one another
abbrev chained : Schema Text
chained = schema (lit "i") (
    (lit "total", formula (lit "COUNT(items)"))
    ∷ (lit "twice", formula (lit "total * 2"))
    ∷ (lit "a", formula (lit "b"))
    ∷ (lit "b", formula (lit "a"))
    ∷ [])

twice-computed_field_has_relation_aggregate :
    computed_field_has_relation_aggregate some chained (lit "twice") ≡ true
unfolding computed_field_has_relation_aggregate contains expression_of lookup text_eq
    parse_expression parse_expr unary_match bump primary_match name_match binary_round
    has_relation_aggregate columns args_match comma_match close
twice-computed_field_has_relation_aggregate = refl

mutual-computed_field_has_relation_aggregate :
    computed_field_has_relation_aggregate some chained (lit "a") ≡ false
unfolding computed_field_has_relation_aggregate contains expression_of lookup text_eq
    parse_expression parse_expr unary_match bump primary_match name_match binary_round
    has_relation_aggregate columns args_match comma_match close
mutual-computed_field_has_relation_aggregate = refl

computed_field_has_relation_aggregate-eq-true_iff_example :
    (computed_field_has_relation_aggregate some chained (lit "twice") ≡ true)
    ↔ ((ds : List Text) × IsChain some chained (lit "twice") ds)
computed_field_has_relation_aggregate-eq-true_iff_example =
    computed_field_has_relation_aggregate-eq-true_iff some chained (lit "twice")

abbrev sizes : Attribute Text
sizes = record (attribute FieldType.enumeration) {
  enum_values = lit "small" ∷ lit "2" ∷ lit "small" ∷ [];
}

sizes-validate_enumeration :
    validate_enumeration (lit "p") sizes
    ≡ error (lit "p.enum") (lit "invalid-enum-value")
      ++ error (lit "p.enum") (lit "duplicate-enum-value")
unfolding validate_enumeration text_eq
sizes-validate_enumeration = refl

validate_enumeration-empty_iff_example : (validate_enumeration (lit "p") sizes ≡ []) ↔ (
    (sizes.enum_values ≢ [])
    × Nodup sizes.enum_values
    × All (λ v. is_identifier v ≡ true) sizes.enum_values)
validate_enumeration-empty_iff_example = validate_enumeration-empty_iff (lit "p") sizes

validate_identity-empty_iff_example :
    (validate_identity invoice ≡ []) ↔ IsIdentified collection_type invoice
validate_identity-empty_iff_example = validate_identity-empty_iff invoice
