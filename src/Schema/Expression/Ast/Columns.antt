-- ===== src/Schema/Expression/Ast/Columns.antt =====
-- The columns that an expression of expression.rs reads.
use ferris_cms.Prelude.{
  ◌≡◌, ◌↔◌, ◌⊎◌, inl, inr, List, [], ◌∷◌, ◌++◌, Text, contains, contains_iff, In, In-append, Nodup,
  Nodup-snoc, arith, Bool-cases, if◌then◌else◌,
}
use ferris_cms.Schema.Expression.Ast.{
  Expr, Exprs, column, number, str, bool, null, relation_column, relation_aggregate, binary, unary,
  func, nil, cons, collect_columns, collect_args, columns,
}

-- `x` stands in the expression as a column of its own schema.
unfoldable mutual
  pub Mentions : {N : Type 0} → Text → Expr N → Type 0
  Mentions x (column name) = x ≡ name
  Mentions x (binary _ left right) = Mentions x left ⊎ Mentions x right
  Mentions x (unary _ e) = Mentions x e
  Mentions x (func _ args) = ArgsMention x args
  Mentions x (number _) = ⊥
  Mentions x (str _) = ⊥
  Mentions x (bool _) = ⊥
  Mentions x null = ⊥
  Mentions x (relation_column _ _) = ⊥
  Mentions x (relation_aggregate _ _ _) = ⊥

  pub ArgsMention : {N : Type 0} → Text → Exprs N → Type 0
  ArgsMention x nil = ⊥
  ArgsMention x (cons e args) = Mentions x e ⊎ ArgsMention x args

push-In :
    (x name : Text) (out : List Text)
    → In x (if contains out name then out else out ++ name ∷ []) ↔ (In x out ⊎ (x ≡ name))
push-In x name out = elim (Bool-cases (contains out name)) [
  | inl e ↦
      rw e (λ m. inl m, λ m. elim m [ inl k ↦ k | inr q ↦ rw q ((contains_iff out name).0 e) ])
  | inr e ↦ rw e (ground (arith, In-append x out (name ∷ [])))
]

push-Nodup :
    (name : Text) (out : List Text)
    → Nodup out
    → Nodup (if contains out name then out else out ++ name ∷ [])
push-Nodup name out d = elim (Bool-cases (contains out name)) [
  | inl e ↦ rw e d
  | inr e ↦ rw e (Nodup-snoc out name d (λ m. ground (arith, e, contains_iff out name, m)))
]

module _ {N : Type 0} where
  mutual
    unfolding collect_columns Mentions

    In-collect_columns :
        (x : Text) (e : Expr N) (out : List Text)
        → In x (collect_columns e out) ↔ (In x out ⊎ Mentions x e)
    In-collect_columns x (column name) out = push-In x name out
    In-collect_columns x (binary _ left right) out = ground (
      arith,
      In-collect_columns x left out,
      In-collect_columns x right (collect_columns left out),
    )
    In-collect_columns x (unary _ e) out = In-collect_columns x e out
    In-collect_columns x (func _ args) out = In-collect_args x args out
    In-collect_columns x e out = (λ m. inl m, λ m. elim m [ inl k ↦ k | inr k ↦ absurd k ])

    In-collect_args :
        (x : Text) (args : Exprs N) (out : List Text)
        → In x (collect_args args out) ↔ (In x out ⊎ ArgsMention x args)
    In-collect_args x nil out = (λ m. inl m, λ m. elim m [ inl k ↦ k | inr k ↦ absurd k ])
    In-collect_args x (cons e args) out =
        ground (arith, In-collect_columns x e out, In-collect_args x args (collect_columns e out))

  mutual
    unfolding collect_columns

    collect_columns-Nodup :
        (e : Expr N) (out : List Text) → Nodup out → Nodup (collect_columns e out)
    collect_columns-Nodup (column name) out d = push-Nodup name out d
    collect_columns-Nodup (binary _ left right) out d =
        collect_columns-Nodup right (collect_columns left out) (collect_columns-Nodup left out d)
    collect_columns-Nodup (unary _ e) out d = collect_columns-Nodup e out d
    collect_columns-Nodup (func _ args) out d = collect_args-Nodup args out d
    collect_columns-Nodup e out d = d

    collect_args-Nodup :
        (args : Exprs N) (out : List Text) → Nodup out → Nodup (collect_args args out)
    collect_args-Nodup nil out d = d
    collect_args-Nodup (cons e args) out d =
        collect_args-Nodup args (collect_columns e out) (collect_columns-Nodup e out d)

  -- `columns` lists each column that the expression reads of its own schema once, at any depth and
  -- in the arguments of functions, and no other name.
  pub columns-In_iff :
      (e : Expr N) → Nodup (columns e) × ((x : Text) → In x (columns e) ↔ Mentions x e)
  unfolding columns
  columns-In_iff e = (collect_columns-Nodup e [] tt, λ x. ground (arith, In-collect_columns x e []))
