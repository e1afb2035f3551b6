-- ===== src/Schema/Validation/Relations.antt =====
-- When the relations of an expression are accepted.
use mathlib.Core.Bool.{decide}
use ferris_cms.Prelude.{
  ◌≡◌, ◌≢◌, refl, ◌↔◌, Bool, true, false, not, Option, none, some, List, [], ◌∷◌, ◌++◌, Text, Assoc,
  lookup, arith, Bool-cases, inl, inr,
}
use ferris_cms.Domain.Field.{FieldType, relation}
use ferris_cms.Schema.Model.{Attribute}
use ferris_cms.Schema.Expression.Ast.{
  Expr, Exprs, column, number, str, bool, null, relation_column, relation_aggregate, binary, unary,
  func, nil, cons,
}
use ferris_cms.Schema.Validation.{
  FieldError, error, when, is_relation, empty_column, aggregate_errors, relation_errors,
  args_errors,
}

-- A relation field stands in an aggregate only, and an aggregate is over a relation of the schema.
unfoldable mutual
  pub IsRelational : {V N : Type 0} → Assoc (Attribute V) → Expr N → Type 0
  IsRelational {V = V} attributes (relation_aggregate name field _) =
      (a : Attribute V) × (lookup name attributes ≡ some a)
      × (a.attr_type ≡ relation)
      × (field ≢ some [])
  IsRelational attributes (relation_column _ _) = ⊥
  IsRelational attributes (binary _ left right) =
      IsRelational attributes left × IsRelational attributes right
  IsRelational attributes (unary _ e) = IsRelational attributes e
  IsRelational attributes (func _ args) = ArgsRelational attributes args
  IsRelational attributes (column _) = Unit
  IsRelational attributes (number _) = Unit
  IsRelational attributes (str _) = Unit
  IsRelational attributes (bool _) = Unit
  IsRelational attributes null = Unit

  pub ArgsRelational : {V N : Type 0} → Assoc (Attribute V) → Exprs N → Type 0
  ArgsRelational attributes nil = Unit
  ArgsRelational attributes (cons e args) =
      IsRelational attributes e × ArgsRelational attributes args

pub append-empty_iff : {A : Type 0} (xs ys : List A) → (xs ++ ys ≡ []) ↔ ((xs ≡ []) × (ys ≡ []))
append-empty_iff [] ys = ground arith
append-empty_iff (x ∷ xs) ys = ground arith

pub decide-true_iff : {P : Type 0} (d : Dec P) → (decide d ≡ true) ↔ P
unfolding decide
decide-true_iff (yes p) = (λ h. p, λ h. refl)
decide-true_iff (no n) = (λ h. absurd (cc h), λ h. absurd (n h))

-- A rule reports nothing exactly if it is not broken.
pub when-error_iff : (b : Bool) (path code : Text) → (when b (error path code) ≡ []) ↔ (b ≡ false)
when-error_iff true path code = ground arith
when-error_iff false path code = ground arith

-- A rule on a test with a meaning, a rule on its negation, and two rules in a row.
pub when_iff :
    {P : Type 0} (b : Bool) (path code : Text)
    → (b ≡ false) ↔ P
    → (when b (error path code) ≡ []) ↔ P
when_iff b path code p =
    let rule = when-error_iff b path code in (λ h. p.0 (rule.0 h), λ h. rule.1 (p.1 h))

pub unless_iff :
    {P : Type 0} (b : Bool) (path code : Text)
    → (b ≡ true) ↔ P
    → (when (not b) (error path code) ≡ []) ↔ P
unless_iff true path code p = (λ h. p.0 refl, λ h. refl)
unless_iff false path code p = (λ h. absurd (cc h), λ h. absurd (cc (p.1 h)))

pub both_iff :
    {P Q : Type 0} {xs ys : List FieldError}
    → (xs ≡ []) ↔ P
    → (ys ≡ []) ↔ Q
    → (xs ++ ys ≡ []) ↔ (P × Q)
both_iff {xs = xs} {ys = ys} p q =
    let both = append-empty_iff xs ys in
    (λ h. (p.0 (both.0 h).0, q.0 (both.0 h).1), λ (x, y). both.1 (p.1 x, q.1 y))

pub is_relation_iff : (t : FieldType) → (is_relation t ≡ true) ↔ (t ≡ relation)
is_relation_iff relation = ground arith
is_relation_iff t = ground arith

empty_column_iff : (field : Option Text) → (empty_column field ≡ false) ↔ (field ≢ some [])
empty_column_iff none = ground arith
empty_column_iff (some []) = ground arith
empty_column_iff (some (c ∷ field)) = ground arith

module _ {V : Type 0} where
  aggregate_errors-empty_iff :
      (path : Text) (found : Option (Attribute V)) (field : Option Text)
      → (aggregate_errors path found field ≡ [])
        ↔ ((a : Attribute V) × (found ≡ some a) × (a.attr_type ≡ relation) × (field ≢ some []))
  unfolding aggregate_errors
  aggregate_errors-empty_iff path none field = (λ h. absurd (cc h), λ (a, e, _, _). absurd (cc e))
  aggregate_errors-empty_iff path (some a) field = elim (Bool-cases (is_relation a.attr_type)) [
    | inl e ↦ (
      λ h. (
        a,
        refl,
        (is_relation_iff a.attr_type).0 e,
        (empty_column_iff field).0 (ground (arith, e, h)),
      ),
      λ (a', e', t, n). rw (e, (empty_column_iff field).1 n) refl,
    )
    | inr e ↦ (
      λ h. absurd (ground (arith, e, h)),
      λ (a', e', t, n). absurd (ground (arith, e, e', t, is_relation_iff a.attr_type)),
    )
  ]

module _ {V N : Type 0} (attributes : Assoc (Attribute V)) where
  mutual
    unfolding relation_errors IsRelational

    pub relation_errors-empty_iff :
        (path : Text) (e : Expr N)
        → (relation_errors attributes path e ≡ []) ↔ IsRelational attributes e
    relation_errors-empty_iff path (relation_aggregate name field f) =
        aggregate_errors-empty_iff path (lookup name attributes) field
    relation_errors-empty_iff path (relation_column _ _) = (λ h. absurd (cc h), λ h. absurd h)
    relation_errors-empty_iff path (binary _ left right) = ground (
      arith,
      append-empty_iff (relation_errors attributes path left)
          (relation_errors attributes path right),
      relation_errors-empty_iff path left,
      relation_errors-empty_iff path right,
    )
    relation_errors-empty_iff path (unary _ e) = relation_errors-empty_iff path e
    relation_errors-empty_iff path (func _ args) = args_errors-empty_iff path args
    relation_errors-empty_iff path e = (λ h. tt, λ h. refl)

    args_errors-empty_iff :
        (path : Text) (args : Exprs N)
        → (args_errors attributes path args ≡ []) ↔ ArgsRelational attributes args
    args_errors-empty_iff path nil = (λ h. tt, λ h. refl)
    args_errors-empty_iff path (cons e args) = ground (
      arith,
      append-empty_iff (relation_errors attributes path e) (args_errors attributes path args),
      relation_errors-empty_iff path e,
      args_errors-empty_iff path args,
    )
