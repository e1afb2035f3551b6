-- ===== src/Workflow/Expression/Returns.antt =====
-- The fuel of the evaluator is enough: no step of it gives tokens back, and an operand takes one.
use ferris_cms.Prelude.{ℕ, zero, suc, ◌+◌, ◌*◌, ◌≤◌, List, [], ◌∷◌, ◌++◌, length, arith}
use ferris_cms.Schema.Payload.{Json}
use ferris_cms.Workflow.Expression.{Std, Context}
use ferris_cms.Workflow.Expression.Tokens.{
  Tok, num, ident, ref, minus, bang, l_paren, r_paren, l_bracket, r_bracket, dot, comma,
}
use ferris_cms.Workflow.Expression.Value.{get_field, index_value}
use ferris_cms.Workflow.Expression.Costs.{
  Ensures, Ends, Ensures-bind, Ensures-mono, Below, AtMost, expect_paren-fits, expect_bracket-fits,
  constant-Ends, resolve_reference-Ends, with_rest-fits, close_call-fits, or_level-Takes, bind-fits,
  weaken, weaken_le,
}
use ferris_cms.Workflow.Expression.Eval.{
  expect_bracket, resolve_reference, constant, close_call, eval_or, eval_unary, postfix_loop,
  eval_args, args_loop, comma_match, eval_primary, at_end, eval_tokens,
}

module _ {N F : Type 0} (std : Std N F) (ctx : Context N) where
  mutual
    unfolding eval_or eval_unary postfix_loop eval_args args_loop comma_match eval_primary

    eval_or-fits :
        (f : ℕ) (toks : List (Tok F))
        → 8 * length toks + 3 ≤ f
        → Ensures (Below (length toks)) (eval_or std ctx f toks)
    eval_or-fits zero toks h = absurd (omega arith)
    eval_or-fits (suc f) toks h =
        or_level-Takes std ctx (length toks) (eval_unary std ctx f)
          (λ ts l. eval_unary-fits f ts (omega arith)) toks (omega arith)

    pub eval_unary-fits :
        (f : ℕ) (toks : List (Tok F))
        → 8 * length toks + 2 ≤ f
        → Ensures (Below (length toks)) (eval_unary std ctx f toks)
    eval_unary-fits zero toks h = absurd (omega arith)
    eval_unary-fits (suc f) (bang ∷ rest) h =
        bind-fits std ctx (length rest) _ (eval_unary std ctx f rest) _
          (eval_unary-fits f rest (omega arith)) λ (v, left) l. omega arith
    eval_unary-fits (suc f) (minus ∷ rest) h =
        bind-fits std ctx (length rest) _ (eval_unary std ctx f rest) _
          (eval_unary-fits f rest (omega arith)) λ (v, left) l. omega arith
    eval_unary-fits (suc f) toks h =
        bind-fits std ctx (length toks) _ (eval_primary std ctx f toks) _
          (eval_primary-fits f toks (omega arith))
          λ (v, rest) l.
            weaken std ctx (length rest) _ (postfix_loop std ctx f v rest)
              (postfix_loop-fits f v rest (omega arith)) (omega arith)

    postfix_loop-fits :
        (f : ℕ) (v : Json N) (toks : List (Tok F))
        → 8 * length toks + 1 ≤ f
        → Ensures (AtMost (length toks)) (postfix_loop std ctx f v toks)
    postfix_loop-fits zero v toks h = absurd (omega arith)
    postfix_loop-fits (suc f) v (dot ∷ (ident name ∷ rest)) h =
        weaken_le std ctx (length rest) _ (postfix_loop std ctx f (get_field v name) rest)
          (postfix_loop-fits f (get_field v name) rest (omega arith)) (omega arith)
    postfix_loop-fits (suc f) v (dot ∷ rest) h = tt
    postfix_loop-fits (suc f) v (l_bracket ∷ (r_bracket ∷ rest)) h = tt
    postfix_loop-fits (suc f) v (l_bracket ∷ rest) h =
        Ensures-bind (Below (length rest)) (AtMost (suc (length rest))) (eval_or std ctx f rest) _
          (eval_or-fits f rest (omega arith))
          λ (i, left) l.
            Ensures-bind (Below (length left)) (AtMost (suc (length rest))) (expect_bracket i left)
              _ (expect_bracket-fits i left)
              λ (i', left') k.
                weaken_le std ctx (length left') _
                  (postfix_loop std ctx f (index_value std v i') left')
                  (postfix_loop-fits f (index_value std v i') left' (omega arith)) (omega arith)
    postfix_loop-fits (suc f) (Json.str name) (l_paren ∷ rest) h =
        Ensures-bind (AtMost (length rest)) (AtMost (suc (length rest))) (eval_args std ctx f rest)
          _ (eval_args-fits f rest (omega arith))
          λ (args, left) l.
            Ensures-bind (Below (length left)) (AtMost (suc (length rest)))
              (close_call std ctx name (args, left)) _ (close_call-fits std ctx name args left)
              λ (v, left') k.
                weaken_le std ctx (length left') _ (postfix_loop std ctx f v left')
                  (postfix_loop-fits f v left' (omega arith)) (omega arith)
    postfix_loop-fits (suc f) v (l_paren ∷ rest) h = tt
    postfix_loop-fits (suc f) v toks h = omega arith

    eval_args-fits :
        (f : ℕ) (toks : List (Tok F))
        → 8 * length toks + 5 ≤ f
        → Ensures (AtMost (length toks)) (eval_args std ctx f toks)
    eval_args-fits zero toks h = absurd (omega arith)
    eval_args-fits (suc f) (r_paren ∷ rest) h = omega arith
    eval_args-fits (suc f) toks h = args_loop-fits f [] toks (omega arith)

    args_loop-fits :
        (f : ℕ) (args : List (Json N)) (toks : List (Tok F))
        → 8 * length toks + 4 ≤ f
        → Ensures (AtMost (length toks)) (args_loop std ctx f args toks)
    args_loop-fits zero args toks h = absurd (omega arith)
    args_loop-fits (suc f) args toks h =
        Ensures-bind (Below (length toks)) (AtMost (length toks)) (eval_or std ctx f toks) _
          (eval_or-fits f toks (omega arith))
          λ (v, rest) l.
            weaken_le std ctx (length rest) _ (comma_match std ctx f (args ++ v ∷ []) rest)
              (comma_match-fits f (args ++ v ∷ []) rest (omega arith)) (omega arith)

    comma_match-fits :
        (f : ℕ) (args : List (Json N)) (toks : List (Tok F))
        → 8 * length toks + 1 ≤ f
        → Ensures (AtMost (length toks)) (comma_match std ctx f args toks)
    comma_match-fits zero args toks h = absurd (omega arith)
    comma_match-fits (suc f) args (comma ∷ rest) h =
        weaken_le std ctx (length rest) _ (args_loop std ctx f args rest)
          (args_loop-fits f args rest (omega arith)) (omega arith)
    comma_match-fits (suc f) args toks h = omega arith

    eval_primary-fits :
        (f : ℕ) (toks : List (Tok F))
        → 8 * length toks + 1 ≤ f
        → Ensures (Below (length toks)) (eval_primary std ctx f toks)
    eval_primary-fits zero toks h = absurd (omega arith)
    eval_primary-fits (suc f) (num n ∷ rest) h = omega arith
    eval_primary-fits (suc f) (Tok.str s ∷ rest) h = omega arith
    eval_primary-fits (suc f) (ident name ∷ (l_paren ∷ rest)) h =
        Ensures-bind (AtMost (length rest)) (Below _) (eval_args std ctx f rest) _
          (eval_args-fits f rest (omega arith))
          λ (args, left) l.
            Ensures-mono (Below (length left)) (Below _) _ (close_call-fits std ctx name args left)
              (λ (v, end) q. omega arith)
    eval_primary-fits (suc f) (ident name ∷ rest) h =
        with_rest-fits std ctx _ rest (constant std ctx name) (constant-Ends std ctx name)
          (omega arith)
    eval_primary-fits (suc f) (ref name ∷ rest) h =
        with_rest-fits std ctx _ rest (resolve_reference std ctx name)
          (resolve_reference-Ends std ctx name) (omega arith)
    eval_primary-fits (suc f) (l_paren ∷ rest) h =
        bind-fits std ctx (length rest) _ (eval_or std ctx f rest) _
          (eval_or-fits f rest (omega arith))
          λ (v, left) l.
            Ensures-mono (Below (length left)) (Below _) _ (expect_paren-fits v left)
              (λ (w, end) q. omega arith)
    eval_primary-fits (suc f) toks h = tt

  at_end-Ends : (r : Json N × List (Tok F)) → Ends (at_end std ctx r)
  unfolding at_end
  at_end-Ends (v, []) = tt
  at_end-Ends (v, t ∷ rest) = tt

  pub eval_tokens-Ends : (toks : List (Tok F)) → Ends (eval_tokens std ctx toks)
  unfolding eval_tokens
  eval_tokens-Ends toks =
      Ensures-bind (Below (length toks)) (λ v. Unit) (eval_or std ctx (8 * length toks + 8) toks) _
        (eval_or-fits (8 * length toks + 8) toks (omega arith)) (λ r l. at_end-Ends r)
