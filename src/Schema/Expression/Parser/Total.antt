-- ===== src/Schema/Expression/Parser/Total.antt =====
-- The fuel of `parse_expression` is enough.
use ferris_cms.Prelude.{ℕ, zero, suc, ◌+◌, ◌*◌, ◌≤◌, ◌≢◌, Option, none, length, Text, arith}
use ferris_cms.Schema.Expression.Ast.{BinOp, Expr, Exprs, nil}
use ferris_cms.Schema.Expression.Lexer.{Token}
use ferris_cms.Schema.Expression.Parser.{
  Parsed, ok, err, out_of_fuel, ◌>>=◌, Parser, peek, snoc, binary_round, comparison, additive,
  multiplicative, parse_expr, expr_loop, parse_additive, additive_loop, parse_multiplicative,
  multiplicative_loop, parse_unary, parse_primary, parse_name, parse_args, args_loop, at_end,
  fuel_for, parse_expression,
}
use ferris_cms.Schema.Expression.Parser.Rounds.{
  Ensures, Ensures-bind, Ensures-mono, size, AtMost, Small, size-peek, bump-bind, binary_round-fits,
  unary_match-fits, primary_match-fits, name_match-fits, args_match-fits, comma_match-fits,
}

module _ {N : Type 0} (parse_f64 : Text → Option N) where
  relax :
      {A : Type 0} (m : Parsed (A × Parser N)) (k n : ℕ)
      → Ensures (AtMost k) m
      → k ≤ n
      → Ensures (AtMost n) m
  relax m k n h l = Ensures-mono (AtMost k) (AtMost n) m h λ (a, q) b. omega arith

  -- a level of binary operators: an operand, then the loop
  then_loop :
      (m : Parsed (Expr N × Parser N)) (loop : Expr N → Parser N → Parsed (Expr N × Parser N))
      (p : Parser N)
      → Ensures (AtMost (size p)) m
      → ((e : Expr N) (q : Parser N) → size q ≤ size p → Ensures (AtMost (size q)) (loop e q))
      → Ensures (AtMost (size p)) (m >>= λ (e, q). loop e q)
  then_loop m loop p h g = Ensures-bind (AtMost (size p)) (AtMost (size p)) m _ h λ (e, q) l.
      Ensures-mono (AtMost (size q)) (AtMost (size p)) (loop e q) (g e q l)
        λ (e1, q1) l1. omega arith

  round :
      (p : Parser N) (next : Parser N → Parsed (Expr N × Parser N))
      (loop : Expr N → Parser N → Parsed (Expr N × Parser N)) (e : Expr N)
      (test : Option (Token N) → Option BinOp)
      → Small parse_f64 (size p) next
      → ((e : Expr N) → Small parse_f64 (size p) (loop e))
      → Ensures
          (AtMost (size p))
          (binary_round parse_f64 next loop e (test (peek parse_f64 p).0) (peek parse_f64 p).1)
  round p next loop e test hn hl =
      binary_round-fits parse_f64 (size p) next loop e (test (peek parse_f64 p).0)
        (peek parse_f64 p).1 hn hl (size-peek parse_f64 p)

  mutual
    unfolding parse_expr expr_loop parse_additive additive_loop parse_multiplicative
        multiplicative_loop parse_unary parse_primary parse_name parse_args args_loop

    expr-fits :
        (f : ℕ) (p : Parser N)
        → 16 * size p + 5 ≤ f
        → Ensures (AtMost (size p)) (parse_expr parse_f64 f p)
    expr-fits zero p h = absurd (omega arith)
    expr-fits (suc f) p h =
        then_loop (parse_additive parse_f64 f p) (expr_loop parse_f64 f) p
          (additive-fits f p (omega arith)) λ e q l. expr_loop-fits f e q (omega arith)

    expr_loop-fits :
        (f : ℕ) (e : Expr N) (p : Parser N)
        → 16 * size p + 1 ≤ f
        → Ensures (AtMost (size p)) (expr_loop parse_f64 f e p)
    expr_loop-fits zero e p h = absurd (omega arith)
    expr_loop-fits (suc f) e p h =
        round p (parse_additive parse_f64 f) (expr_loop parse_f64 f) e comparison
          (λ q l. additive-fits f q (omega arith)) (λ e q l. expr_loop-fits f e q (omega arith))

    additive-fits :
        (f : ℕ) (p : Parser N)
        → 16 * size p + 4 ≤ f
        → Ensures (AtMost (size p)) (parse_additive parse_f64 f p)
    additive-fits zero p h = absurd (omega arith)
    additive-fits (suc f) p h =
        then_loop (parse_multiplicative parse_f64 f p) (additive_loop parse_f64 f) p
          (multiplicative-fits f p (omega arith)) λ e q l. additive_loop-fits f e q (omega arith)

    additive_loop-fits :
        (f : ℕ) (e : Expr N) (p : Parser N)
        → 16 * size p + 1 ≤ f
        → Ensures (AtMost (size p)) (additive_loop parse_f64 f e p)
    additive_loop-fits zero e p h = absurd (omega arith)
    additive_loop-fits (suc f) e p h =
        round p (parse_multiplicative parse_f64 f) (additive_loop parse_f64 f) e additive
          (λ q l. multiplicative-fits f q (omega arith))
          (λ e q l. additive_loop-fits f e q (omega arith))

    multiplicative-fits :
        (f : ℕ) (p : Parser N)
        → 16 * size p + 3 ≤ f
        → Ensures (AtMost (size p)) (parse_multiplicative parse_f64 f p)
    multiplicative-fits zero p h = absurd (omega arith)
    multiplicative-fits (suc f) p h =
        then_loop (parse_unary parse_f64 f p) (multiplicative_loop parse_f64 f) p
          (unary-fits f p (omega arith)) λ e q l. multiplicative_loop-fits f e q (omega arith)

    multiplicative_loop-fits :
        (f : ℕ) (e : Expr N) (p : Parser N)
        → 16 * size p + 1 ≤ f
        → Ensures (AtMost (size p)) (multiplicative_loop parse_f64 f e p)
    multiplicative_loop-fits zero e p h = absurd (omega arith)
    multiplicative_loop-fits (suc f) e p h =
        round p (parse_unary parse_f64 f) (multiplicative_loop parse_f64 f) e multiplicative
          (λ q l. unary-fits f q (omega arith))
          (λ e q l. multiplicative_loop-fits f e q (omega arith))

    unary-fits :
        (f : ℕ) (p : Parser N)
        → 16 * size p + 2 ≤ f
        → Ensures (AtMost (size p)) (parse_unary parse_f64 f p)
    unary-fits zero p h = absurd (omega arith)
    unary-fits (suc f) p h =
        unary_match-fits parse_f64 (size p) (parse_unary parse_f64 f) (parse_primary parse_f64 f)
          (peek parse_f64 p).0 (peek parse_f64 p).1 (λ q l. unary-fits f q (omega arith))
          (relax (parse_primary parse_f64 f (peek parse_f64 p).1) _ _
            (primary-fits f (peek parse_f64 p).1 (omega (arith, size-peek parse_f64 p)))
            (size-peek parse_f64 p))
          (size-peek parse_f64 p)

    primary-fits :
        (f : ℕ) (p : Parser N)
        → 16 * size p + 1 ≤ f
        → Ensures (AtMost (size p)) (parse_primary parse_f64 f p)
    primary-fits zero p h = absurd (omega arith)
    primary-fits (suc f) p h = bump-bind parse_f64 (size p) _ p _ (omega arith) λ t q l.
        primary_match-fits parse_f64 (size p) (parse_expr parse_f64 f) (parse_name parse_f64 f) t q
          l (λ q l. expr-fits f q (omega arith))
          (λ name.
            relax (parse_name parse_f64 f name q) _ _ (name-fits f name q (omega arith))
              (omega arith))

    name-fits :
        (f : ℕ) (name : Text) (p : Parser N)
        → 16 * size p + 8 ≤ f
        → Ensures (AtMost (size p)) (parse_name parse_f64 f name p)
    name-fits zero name p h = absurd (omega arith)
    name-fits (suc f) name p h =
        name_match-fits parse_f64 (size p) (parse_args parse_f64 f) name (peek parse_f64 p).0
          (peek parse_f64 p).1 (λ q l. args-fits f q (omega arith)) (size-peek parse_f64 p)

    args-fits :
        (f : ℕ) (p : Parser N)
        → 16 * size p + 7 ≤ f
        → Ensures (AtMost (size p)) (parse_args parse_f64 f p)
    args-fits zero p h = absurd (omega arith)
    args-fits (suc f) p h =
        args_match-fits parse_f64 (size p) (args_loop parse_f64 f) (peek parse_f64 p).0
          (peek parse_f64 p).1
          (relax (args_loop parse_f64 f nil (peek parse_f64 p).1) _ _
            (args_loop-fits f nil (peek parse_f64 p).1 (omega (arith, size-peek parse_f64 p)))
            (size-peek parse_f64 p))
          (size-peek parse_f64 p)

    args_loop-fits :
        (f : ℕ) (args : Exprs N) (p : Parser N)
        → 16 * size p + 6 ≤ f
        → Ensures (AtMost (size p)) (args_loop parse_f64 f args p)
    args_loop-fits zero args p h = absurd (omega arith)
    args_loop-fits (suc f) args p h =
        Ensures-bind (AtMost (size p)) (AtMost (size p)) (parse_expr parse_f64 f p) _
          (expr-fits f p (omega arith))
          λ (e, q) l.
            comma_match-fits parse_f64 (size p) (args_loop parse_f64 f) (snoc args e)
              (peek parse_f64 q).0 (peek parse_f64 q).1
              (λ es q l. args_loop-fits f es q (omega arith)) (omega (arith, size-peek parse_f64 q))

  at_end_total : (e : Expr N) (p : Parser N) → Ensures (λ _. Unit) (at_end parse_f64 e p)
  unfolding at_end
  at_end_total e p = ground arith

  Ensures-returns : {A : Type 0} (m : Parsed A) → Ensures (λ _. Unit) m → m ≢ out_of_fuel
  Ensures-returns (ok a) h e = absurd (cc e)
  Ensures-returns (err e) h e' = absurd (cc e')
  Ensures-returns out_of_fuel h e = h

  -- `parse_expression` comes to an end on every text: with an expression or with an error of the
  -- source, and never for want of fuel.
  pub parse_expression_returns : (input : Text) → parse_expression parse_f64 input ≢ out_of_fuel
  unfolding parse_expression
  parse_expression_returns input = Ensures-returns _ (
      Ensures-bind (AtMost (length input)) (λ _. Unit)
        (parse_expr parse_f64 (fuel_for parse_f64 input)
          (record { text = input; lookahead = none }))
        (λ (e, p). at_end parse_f64 e p)
        (relax
          (parse_expr parse_f64 (fuel_for parse_f64 input)
            (record { text = input; lookahead = none }))
          _ _ (expr-fits _ _ (omega arith)) (omega arith))
        λ (e, q) l. at_end_total e q)
