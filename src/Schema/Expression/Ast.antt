-- ===== src/Schema/Expression/Ast.antt =====
-- The expressions of expression.rs. `N` is the type `f64`.
pub mod Columns
use ferris_cms.Prelude.{
  Bool, not, Option, none, some, List, [], ◌∷◌, ◌++◌, is_empty, map, Text, lit, text_eq, contains,
  if◌then◌else◌,
}
use ferris_cms.Domain.Naming.{to_ascii_uppercase}

pub data BinOp : Type 0 where
  add sub mul div mod_ concat eq ne lt lte gt gte : BinOp

pub data UnOp : Type 0 where
  neg not_ : UnOp

pub data AggregateFunction : Type 0 where
  count sum avg min max : AggregateFunction

-- `str::to_ascii_uppercase`
abbrev pub uppercase : Text → Text
uppercase s = map to_ascii_uppercase s

-- `AggregateFunction::parse`
unfoldable pub parse_aggregate : Text → Option AggregateFunction
unfolding text_eq
parse_aggregate name =
    if text_eq (uppercase name) (lit "COUNT")
    then some count
    else if text_eq (uppercase name) (lit "SUM")
    then some sum
    else if text_eq (uppercase name) (lit "AVG")
    then some avg
    else if text_eq (uppercase name) (lit "MIN")
    then some min
    else if text_eq (uppercase name) (lit "MAX")
    then some max
    else none

mutual
  pub data Expr (N : Type 0) : Type 0 where
    column : Text → Expr N
    number : N → Expr N
    str : Text → Expr N
    bool : Bool → Expr N
    null : Expr N
    relation_column : Text → Text → Expr N
    relation_aggregate : Text → Option Text → AggregateFunction → Expr N
    binary : BinOp → Expr N → Expr N → Expr N
    unary : UnOp → Expr N → Expr N
    func : Text → Exprs N → Expr N

  -- `Vec<Expr>`
  pub data Exprs (N : Type 0) : Type 0 where
    nil : Exprs N
    cons : Expr N → Exprs N → Exprs N

-- `collect_columns`: a column that is listed already is not pushed again
unfoldable mutual
  pub collect_columns : {N : Type 0} → Expr N → List Text → List Text
  collect_columns (column name) out = if contains out name then out else out ++ name ∷ []
  collect_columns (binary _ left right) out = collect_columns right (collect_columns left out)
  collect_columns (unary _ e) out = collect_columns e out
  collect_columns (func _ args) out = collect_args args out
  collect_columns (number _) out = out
  collect_columns (str _) out = out
  collect_columns (bool _) out = out
  collect_columns null out = out
  collect_columns (relation_column _ _) out = out
  collect_columns (relation_aggregate _ _ _) out = out

  pub collect_args : {N : Type 0} → Exprs N → List Text → List Text
  collect_args nil out = out
  collect_args (cons e args) out = collect_args args (collect_columns e out)

unfoldable pub columns : {N : Type 0} → Expr N → List Text
unfolding collect_columns collect_args
columns e = collect_columns e []

pub record Aggregate : Type 0 where
  pub relation : Text
  pub column : Option Text
  pub function : AggregateFunction

unfoldable mutual
  pub collect_relation_aggregates : {N : Type 0} → Expr N → List Aggregate → List Aggregate
  collect_relation_aggregates (relation_aggregate relation field function) out =
      out ++ record { relation = relation; column = field; function = function } ∷ []
  collect_relation_aggregates (binary _ left right) out =
      collect_relation_aggregates right (collect_relation_aggregates left out)
  collect_relation_aggregates (unary _ e) out = collect_relation_aggregates e out
  collect_relation_aggregates (func _ args) out = collect_aggregate_args args out
  collect_relation_aggregates (column _) out = out
  collect_relation_aggregates (number _) out = out
  collect_relation_aggregates (str _) out = out
  collect_relation_aggregates (bool _) out = out
  collect_relation_aggregates null out = out
  collect_relation_aggregates (relation_column _ _) out = out

  pub collect_aggregate_args : {N : Type 0} → Exprs N → List Aggregate → List Aggregate
  collect_aggregate_args nil out = out
  collect_aggregate_args (cons e args) out =
      collect_aggregate_args args (collect_relation_aggregates e out)

unfoldable pub relation_aggregates : {N : Type 0} → Expr N → List Aggregate
unfolding collect_relation_aggregates collect_aggregate_args
relation_aggregates e = collect_relation_aggregates e []

unfoldable pub has_relation_aggregate : {N : Type 0} → Expr N → Bool
unfolding relation_aggregates
has_relation_aggregate e = not (is_empty (relation_aggregates e))
