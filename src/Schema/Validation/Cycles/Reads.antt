-- ===== src/Schema/Validation/Cycles/Reads.antt =====
-- Which fields the expression of a computed field mentions.
use ferris_cms.Prelude.{
  ◌≡◌, refl, ◌↔◌, ◌⊎◌, inl, inr, Option, none, some, List, [], ◌∷◌, ◌++◌, Text, In, In-append,
  contains, contains_iff, if◌then◌else◌, arith,
}
use ferris_cms.Schema.Expression.Ast.{Expr, columns}
use ferris_cms.Schema.Expression.Ast.Columns.{Mentions, columns-In_iff}
use ferris_cms.Schema.Expression.Lexer.{ParseError}
use ferris_cms.Schema.Expression.Parser.{Parsed, ok, err, out_of_fuel, parse_expression}
use ferris_cms.Schema.Validation.Computed.{ok_inj}
use ferris_cms.Schema.Validation.Cycles.{add_columns, parsed_deps}

pub In-add_columns_iff :
    (x : Text) (deps cs : List Text) → In x (add_columns deps cs) ↔ (In x deps ⊎ In x cs)
unfolding add_columns
In-add_columns_iff x deps [] = (λ h. inl h, λ h. elim h [ inl k ↦ k | inr k ↦ absurd k ])
In-add_columns_iff x deps (c ∷ cs) = ground (
  arith,
  In-add_columns_iff x (if contains deps c then deps else deps ++ c ∷ []) cs,
  In-append x deps (c ∷ []),
  contains_iff deps c,
  contains_iff deps x,
)

-- whether the parser gives an expression
pub Parsed-cases :
    {A : Type 0} (r : Parsed A)
    → ((a : A) × (r ≡ ok a)) ⊎ (((x : ParseError) × (r ≡ err x)) ⊎ (r ≡ out_of_fuel))
Parsed-cases (ok a) = inl (a, refl)
Parsed-cases (err x) = inr (inl (x, refl))
Parsed-cases out_of_fuel = inr (inr refl)

module _ {N : Type 0} (parse_f64 : Text → Option N) where
  -- The expression parses and mentions the field `m`.
  unfoldable pub Reads : Option Text → Text → Type 0
  Reads expression m =
      (src : Text) × (e : Expr N) × (expression ≡ some src)
      × (parse_expression parse_f64 src ≡ ok e)
      × Mentions m e

  pub In-parsed_deps_iff :
      (m : Text) (deps : List Text) (expression : Option Text)
      → In m (parsed_deps parse_f64 deps expression) ↔ (In m deps ⊎ Reads expression m)
  unfolding parsed_deps Reads
  In-parsed_deps_iff m deps none = (λ h. inl h, λ h. elim h [ inl k ↦ k | inr k ↦ absurd (cc k.2) ])
  In-parsed_deps_iff m deps (some src) = elim (Parsed-cases (parse_expression parse_f64 src)) [
    | inl (e, q) ↦
        let added = In-add_columns_iff m deps (columns e) in
        let mentioned = (columns-In_iff e).1 m in
        rw (q, parsed_deps)
          (
            λ h. elim (added.0 h) [ inl k ↦ inl k | inr k ↦ inr (src, e, refl, q, mentioned.0 k) ],
            λ h. elim h [
              | inl k ↦ added.1 (inl k)
              | inr (src', e', p, q', k) ↦
                  added.1 (inr (mentioned.1 (rw (ok_inj e e' (cc (q, q', p))) k)))
            ],
          )
    | inr (inl (x, q)) ↦
        rw (q, parsed_deps)
          (
            λ h. inl h,
            λ h. elim h [ inl k ↦ k | inr (src', e', p, q', k) ↦ absurd (cc (q, q', p)) ],
          )
    | inr (inr q) ↦
        rw (q, parsed_deps)
          (
            λ h. inl h,
            λ h. elim h [ inl k ↦ k | inr (src', e', p, q', k) ↦ absurd (cc (q, q', p)) ],
          )
  ]
