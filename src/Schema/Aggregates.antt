-- ===== src/Schema/Aggregates.antt =====
-- crates/core-schema/src/expression.rs: the computed fields that rest on a relation aggregate.
pub mod Chain
use ferris_cms.Prelude.{
  ℕ, zero, suc, ◌+◌, ◌≡◌, Bool, true, false, Option, none, some, List, [], ◌∷◌, any, Text, contains,
  Assoc, lookup, length, if◌then◌else◌,
}
use ferris_cms.Schema.Model.{Attribute, Schema}
use ferris_cms.Schema.Expression.Ast.{Expr, columns, has_relation_aggregate}
use ferris_cms.Schema.Expression.Parser.{Parsed, ok, err, out_of_fuel, parse_expression}

abbrev ok_of : {N : Type 0} → Parsed (Expr N) → Option (Expr N)
ok_of (ok e) = some e
ok_of _ = none

module _ {V N : Type 0} (parse_f64 : Text → Option N) (schema : Schema V) where
  abbrev attribute_source : Option (Attribute V) → Option Text
  attribute_source none = none
  attribute_source (some attr) = attr.expression

  abbrev parsed : Option Text → Option (Expr N)
  parsed none = none
  parsed (some source) = ok_of (parse_expression parse_f64 source)

  -- the expression of an attribute, if it has one that parses
  unfoldable pub expression_of : Text → Option (Expr N)
  expression_of name = parsed (attribute_source (lookup name schema.attributes))

  -- The inner function `visit`, on fuel. `visiting` has the last name first.
  unfoldable pub visit : ℕ → Text → List Text → Bool
  visit zero name visiting = false
  visit (suc fuel) name visiting =
      if contains visiting name then false else elim (expression_of name) [
        | none ↦ false
        | some e ↦
            if has_relation_aggregate e
            then true
            else any (λ dependency. visit fuel dependency (name ∷ visiting)) (columns e)
      ]

  unfoldable pub computed_field_has_relation_aggregate : Text → Bool
  unfolding visit
  computed_field_has_relation_aggregate name = visit (suc (length schema.attributes)) name []
