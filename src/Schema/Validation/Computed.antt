-- ===== src/Schema/Validation/Computed.antt =====
-- When the computed fields of a schema are accepted.
use ferris_cms.Prelude.{
  some_inj, ◌≡◌, ◌≢◌, refl, ◌↔◌, ◌⊎◌, inl, inr, true, false, not, ◌||◌, Option, none, some, List,
  [], ◌∷◌, ◌++◌, is_empty, Text, lit, text_eq, text_eq_iff, Assoc, lookup, arith, All, All-In,
  All-of_In, Bool-cases,
}
use ferris_cms.Domain.Field.{is_scalar_column}
use ferris_cms.Schema.Model.{Attribute, Schema, supports_computed}
use ferris_cms.Schema.Expression.Ast.{Expr, columns}
use ferris_cms.Schema.Expression.Ast.Columns.{Mentions, columns-In_iff}
use ferris_cms.Schema.Expression.Parser.{Parsed, ok, err, out_of_fuel, parse_expression}
use ferris_cms.Schema.Expression.Parser.Total.{parse_expression_returns}
use ferris_cms.Schema.Validation.{
  error, when, is_some, usable, reference_errors, relation_errors, trimmed, parsed_errors,
  source_errors, setting_errors, computed_errors, computed_loop, validate_computed_fields,
}
use ferris_cms.Schema.Validation.Relations.{
  IsRelational, append-empty_iff, relation_errors-empty_iff,
}

-- `d` is another attribute of the schema, and has a column of its own or is computed.
pub IsUsable : {V : Type 0} → Assoc (Attribute V) → Text → Text → Type 0
IsUsable {V = V} attributes name d =
    (d ≢ name)
    × (a : Attribute V) × (lookup d attributes ≡ some a)
    × ((is_scalar_column a.attr_type ≡ true) ⊎ (a.computed ≡ true))

-- The settings that a computed field may have.
pub record AllowsComputed {V : Type 0} (attr : Attribute V) : Type 0 where
  supported : supports_computed attr ≡ true
  optional : attr.required ≡ false
  without_default : attr.default ≡ none
  not_unique : attr.unique ≡ false

module _ {V : Type 0} (attributes : Assoc (Attribute V)) where
  usable-empty_iff :
      (found : Option (Attribute V)) (path : Text)
      → (usable attributes found path ≡ []) ↔ (
          (a : Attribute V) × (found ≡ some a)
          × ((is_scalar_column a.attr_type ≡ true) ⊎ (a.computed ≡ true)))
  usable-empty_iff none path = (λ h. absurd (cc h), λ (a, e, _). absurd (cc e))
  usable-empty_iff (some d) path =
      (λ h. (d, refl, ground (arith, h)), λ (a, e, k). ground (arith, e, k))

  reference_errors-empty_iff :
      (path name : Text) (deps : List Text)
      → (reference_errors attributes path name deps ≡ []) ↔ All (IsUsable attributes name) deps
  unfolding reference_errors IsUsable
  reference_errors-empty_iff path name [] = (λ h. tt, λ h. refl)
  reference_errors-empty_iff path name (d ∷ deps) = elim (Bool-cases (text_eq d name)) [
    | inl e ↦ rw e (λ h. absurd (cc h), λ (u, _). absurd (u.0 ((text_eq_iff d name).0 e)))
    | inr e ↦ rw e (
        ground (
          arith,
          e,
          text_eq_iff d name,
          append-empty_iff (usable attributes (lookup d attributes) path)
              (reference_errors attributes path name deps),
          usable-empty_iff (lookup d attributes) path,
          reference_errors-empty_iff path name deps,
        ))
  ]

setting_errors-empty_iff :
    {V : Type 0} (path : Text) (attr : Attribute V)
    → (setting_errors path attr ≡ []) ↔ AllowsComputed attr
unfolding setting_errors
setting_errors-empty_iff path attr = (
  λ h. record {
    supported = ground (arith, h);
    optional = ground (arith, h);
    without_default = ground (arith, h);
    not_unique = ground (arith, h);
  },
  λ r. rw (r.supported, r.optional, r.without_default, r.not_unique) refl,
)

pub ok_inj : {A : Type 0} (a b : A) → ok a ≡ ok b → a ≡ b
ok_inj a b q = cc q

is_empty_iff : {A : Type 0} (xs : List A) → (is_empty xs ≡ true) ↔ (xs ≡ [])
is_empty_iff [] = ground arith
is_empty_iff (x ∷ xs) = ground arith

module _ {V N : Type 0} (parse_f64 : Text → Option N) (trim : Text → Text)
    (attributes : Assoc (Attribute V)) where
  -- Each column of the expression is usable, and its relations are aggregated.
  pub IsEvaluable : Text → Expr N → Type 0
  IsEvaluable name e =
      ((x : Text) → Mentions x e → IsUsable attributes name x) × IsRelational attributes e

  -- The expression is there, parses, and is evaluable.
  pub HasExpression : Text → Option Text → Type 0
  HasExpression name expression =
      (src : Text) × (e : Expr N) × (expression ≡ some src)
      × (trim src ≢ [])
      × (parse_expression parse_f64 (trim src) ≡ ok e)
      × IsEvaluable name e

  pub IsDeclared : Text → Attribute V → Type 0
  IsDeclared name attr =
      AllowsComputed attr
      × All (IsUsable attributes name) attr.dependencies
      × HasExpression name attr.expression

  -- The definition of the computed field `name` is sound, or the field is not computed and has none.
  pub IsSound : Text → Attribute V → Type 0
  IsSound name attr =
      ((attr.computed ≡ false) × (attr.expression ≡ none) × (attr.dependencies ≡ []))
      ⊎ ((attr.computed ≡ true) × IsDeclared name attr)

  columns-IsUsable_iff :
      (path name : Text) (e : Expr N)
      → (reference_errors attributes path name (columns e) ≡ [])
        ↔ ((x : Text) → Mentions x e → IsUsable attributes name x)
  columns-IsUsable_iff path name e =
      let errors = reference_errors-empty_iff attributes path name (columns e) in
      let mentioned = (columns-In_iff e).1 in
      let P = IsUsable attributes name in
      (
        λ h x m. All-In P (columns e) (errors.0 h) x ((mentioned x).1 m),
        λ h. errors.1 (All-of_In P (columns e) (λ x m. h x ((mentioned x).0 m))),
      )

  IsEvaluable-empty_iff :
      (path name : Text) (e : Expr N)
      → (reference_errors attributes (path ++ lit ".expression") name (columns e)
            ++ relation_errors attributes path e
          ≡ [])
        ↔ IsEvaluable name e
  unfolding IsEvaluable
  IsEvaluable-empty_iff path name e =
      let expr_path = path ++ lit ".expression" in
      let both =
        append-empty_iff (reference_errors attributes expr_path name (columns e))
          (relation_errors attributes path e) in
      let usable = columns-IsUsable_iff expr_path name e in
      let relational = relation_errors-empty_iff attributes path e in
      (
        λ h. (usable.0 (both.0 h).0, relational.0 (both.0 h).1),
        λ (u, r). both.1 (usable.1 u, relational.1 r),
      )

  parsed_errors-empty_iff :
      (path name : Text) (r : Parsed (Expr N))
      → r ≢ out_of_fuel
      → (parsed_errors parse_f64 trim attributes path name r ≡ [])
        ↔ ((e : Expr N) × (r ≡ ok e) × IsEvaluable name e)
  unfolding parsed_errors IsEvaluable
  parsed_errors-empty_iff path name (err x) total = (λ h. absurd (cc h), λ (e, q, _). absurd (cc q))
  parsed_errors-empty_iff path name (ok e) total = (
    λ h. (e, refl, (IsEvaluable-empty_iff path name e).0 h),
    λ (e', q, v). rw (ok_inj e e' q) ((IsEvaluable-empty_iff path name e').1 v),
  )
  parsed_errors-empty_iff path name out_of_fuel total = absurd (total refl)

  source_errors-empty_iff :
      (path name : Text) (expression : Option Text)
      → (source_errors parse_f64 trim attributes path name
            (trimmed parse_f64 trim attributes expression)
          ≡ [])
        ↔ HasExpression name expression
  unfolding HasExpression
  source_errors-empty_iff path name none = (λ h. absurd (cc h), λ (_, _, q, _, _, _). absurd (cc q))
  source_errors-empty_iff path name (some s) = elim (Bool-cases (is_empty (trim s))) [
    | inl e ↦ rw e (
      λ h. absurd (cc h),
      λ (src, _, q, n, _, _). absurd (n ((is_empty_iff (trim src)).0 (cc (e, some_inj s src q)))),
    )
    | inr e ↦
        let parsed =
          parsed_errors-empty_iff path name (parse_expression parse_f64 (trim s))
            (parse_expression_returns parse_f64 (trim s)) in
        rw e (
          λ h. let (x, p, v) = parsed.0 h in (s, x, refl, (λ z. cc (e, z)), p, v),
          λ (src, x, q, n, p, v). parsed.1 (x, (cc (p, some_inj s src q)), v),
        )
  ]

  -- the errors of a field that is not computed
  plain-empty_iff :
      (path : Text) (attr : Attribute V)
      → (when
            (is_some attr.expression || not (is_empty attr.dependencies))
            (error path (lit "unexpected-computed-props"))
          ≡ [])
        ↔ ((attr.expression ≡ none) × (attr.dependencies ≡ []))
  plain-empty_iff path attr =
      (λ h. (ground (arith, h), ground (arith, h)), λ (x, d). rw (x, d) refl)

  -- the errors of a computed field
  IsDeclared-empty_iff :
      (path name : Text) (attr : Attribute V)
      → (setting_errors path attr
            ++ (reference_errors attributes (path ++ lit ".dependencies") name attr.dependencies
                ++ source_errors parse_f64 trim attributes path name
                    (trimmed parse_f64 trim attributes attr.expression))
          ≡ [])
        ↔ IsDeclared name attr
  unfolding IsDeclared
  IsDeclared-empty_iff path name attr =
      let settings = setting_errors path attr in
      let deps = reference_errors attributes (path ++ lit ".dependencies") name attr.dependencies in
      let source =
        source_errors parse_f64 trim attributes path name
          (trimmed parse_f64 trim attributes attr.expression) in
      let first = append-empty_iff settings (deps ++ source) in
      let second = append-empty_iff deps source in
      let settings_iff = setting_errors-empty_iff path attr in
      let deps_iff =
        reference_errors-empty_iff attributes (path ++ lit ".dependencies") name
          attr.dependencies in
      let source_iff = source_errors-empty_iff path name attr.expression in
      (
        λ h.
            let (hs, hr) = first.0 h in
            let (hd, he) = second.0 hr in (settings_iff.0 hs, deps_iff.0 hd, source_iff.0 he),
        λ (a, d, r). first.1 (settings_iff.1 a, second.1 (deps_iff.1 d, source_iff.1 r)),
      )

  computed_errors-empty_iff :
      (path name : Text) (attr : Attribute V)
      → (computed_errors parse_f64 trim attributes path name attr ≡ []) ↔ IsSound name attr
  unfolding computed_errors IsSound
  computed_errors-empty_iff path name attr = elim (Bool-cases attr.computed) [
    | inl e ↦ (
      λ h. inr (e, (IsDeclared-empty_iff path name attr).0 (cc (e, h))),
      λ s. elim s [
        | inl (f, _, _) ↦ absurd (cc (e, f))
        | inr (_, r) ↦ cc (e, (IsDeclared-empty_iff path name attr).1 r)
      ],
    )
    | inr e ↦ (
      λ h. let (x, d) = (plain-empty_iff path attr).0 (cc (e, h)) in inl (e, x, d),
      λ s. elim s [
        | inl (_, x, d) ↦ cc (e, (plain-empty_iff path attr).1 (x, d))
        | inr (t, _) ↦ absurd (cc (e, t))
      ],
    )
  ]

  computed_loop-empty_iff :
      (base : Text) (attrs : Assoc (Attribute V))
      → (computed_loop parse_f64 trim attributes base attrs ≡ [])
        ↔ All (λ (name, attr). IsSound name attr) attrs
  unfolding computed_loop
  computed_loop-empty_iff base [] = (λ h. tt, λ h. refl)
  computed_loop-empty_iff base ((name, attr) ∷ attrs) =
      let path = base ++ (lit ".attributes." ++ name) in
      let both =
        append-empty_iff (computed_errors parse_f64 trim attributes path name attr)
          (computed_loop parse_f64 trim attributes base attrs) in
      let one = computed_errors-empty_iff path name attr in
      let rest = computed_loop-empty_iff base attrs in
      (λ h. (one.0 (both.0 h).0, rest.0 (both.0 h).1), λ (s, r). both.1 (one.1 s, rest.1 r))

module _ {V N : Type 0} (parse_f64 : Text → Option N) (trim : Text → Text) where
  -- No error is reported for the fields of a schema, cycles apart, exactly when each computed field
  -- has a supported type, only the settings that it may have, declared dependencies that are usable,
  -- and an expression that is there and parses, whose columns are usable and whose relations stand
  -- in aggregates over relations of the schema, and no other field has an expression or dependencies.
  pub validate_computed_fields-empty_iff :
      (schema : Schema V)
      → (validate_computed_fields parse_f64 trim schema ≡ [])
        ↔ All (λ (name, attr). IsSound parse_f64 trim schema.attributes name attr) schema.attributes
  unfolding validate_computed_fields
  validate_computed_fields-empty_iff schema =
      computed_loop-empty_iff parse_f64 trim schema.attributes schema.uid schema.attributes
