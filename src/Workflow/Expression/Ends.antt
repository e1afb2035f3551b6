-- ===== src/Workflow/Expression/Ends.antt =====
-- The interpolation ends on every text.
use ferris_cms.Prelude.{
  ℕ, zero, suc, ◌+◌, ◌*◌, ◌-◌, ◌<◌, ◌≢◌, Bool, true, false, ◌&&◌, Option, none, some, [], ◌∷◌, ◌++◌,
  is_empty, length, Text, ◌==◌, arith,
}
use ferris_cms.Workflow.Expression.{Std, Context, Result, out_of_fuel}
use ferris_cms.Workflow.Expression.Tokens.{tokens, tokenize}
use ferris_cms.Workflow.Expression.Eval.{eval_expression}
use ferris_cms.Workflow.Expression.Template.{
  single_expression, find_close, interpolate_loop, interpolate_block, interpolate, evaluate_part,
  evaluate,
}
use ferris_cms.Workflow.Expression.Costs.{Ensures-bind, Ends, if-Ends}
use ferris_cms.Workflow.Expression.Returns.{eval_tokens-Ends}
use ferris_cms.Workflow.Expression.Scans.{
  Left, Left-none, Left-some, Left-inner, Left-mono, Left-if, tokens-Ends,
}

module _ {N F : Type 0} (std : Std N F) (ctx : Context N) where
  eval_expression-Ends : (s : Text) → Ends (eval_expression std ctx s)
  unfolding eval_expression tokenize
  eval_expression-Ends s = if-Ends (is_empty (std.trim s)) _ _ tt (
      Ensures-bind (λ ts. Unit) (λ v. Unit) (tokens std (length s + 1) s) _
        (tokens-Ends std (length s + 1) s (omega arith)) (λ ts u. eval_tokens-Ends std ctx ts))

  find_close-Left : (depth : ℕ) (s : Text) → Left (length s) (find_close depth s)
  unfolding find_close
  find_close-Left depth [] = Left-none 0
  find_close-Left depth (a ∷ []) = Left-none 1
  find_close-Left depth (a ∷ (b ∷ s)) =
      let n = suc (suc (length s)) in
      let pair = a ∷ b ∷ [] in
      let two = λ (d : ℕ).
        Left-inner n pair (find_close d s)
          (Left-mono (length s) n _ (omega arith) (find_close-Left d s)) in
      Left-if n (a == b'{' && b == b'{') _ _ (two (depth + 1)) (
        Left-if n (a == b'}' && b == b'}') _ _
          (Left-if n (depth - 1 == 0) _ _ (Left-some n [] s (omega arith)) (two (depth - 1)))
          (Left-inner n (a ∷ []) (find_close depth (b ∷ s))
            (Left-mono (suc (length s)) n _ (omega arith) (find_close-Left depth (b ∷ s)))))

  either-Ends :
      {A : Type 0} (b : Bool) (x y : Result A)
      → Ends x
      → Ends y
      → Ends (elim b [ true ↦ x | false ↦ y ])
  either-Ends true x y h k = h
  either-Ends false x y h k = k

  mutual
    unfolding interpolate_loop interpolate_block Left

    interpolate_loop-Ends :
        (f : ℕ) (out s : Text) → 2 * length s < f → Ends (interpolate_loop std ctx f out s)
    interpolate_loop-Ends zero out s h = absurd (omega arith)
    interpolate_loop-Ends (suc f) out [] h = tt
    interpolate_loop-Ends (suc f) out (a ∷ []) h =
        interpolate_loop-Ends f (out ++ a ∷ []) [] (omega arith)
    interpolate_loop-Ends (suc f) out (a ∷ (b ∷ s)) h =
        either-Ends (a == b'{' && b == b'{') _ _
          (interpolate_block-Ends f out (length s) (find_close 1 s) (find_close-Left 1 s)
            (omega arith))
          (interpolate_loop-Ends f (out ++ a ∷ []) (b ∷ s) (omega arith))

    interpolate_block-Ends :
        (f : ℕ) (out : Text) (n : ℕ) (found : Option (Text × Text))
        → Left n found
        → 2 * n + 1 < f
        → Ends (interpolate_block std ctx f out found)
    interpolate_block-Ends zero out n found l h = absurd (omega arith)
    interpolate_block-Ends (suc f) out n none l h = tt
    interpolate_block-Ends (suc f) out n (some (inner, rest)) l h =
        Ensures-bind (λ v. Unit) (λ o. Unit) (eval_expression std ctx (std.trim inner)) _
          (eval_expression-Ends (std.trim inner))
          λ v u. interpolate_loop-Ends f _ rest (omega arith)

  evaluate_part-Ends :
      (part : Option Text) (template : Text) → Ends (evaluate_part std ctx part template)
  unfolding interpolate
  evaluate_part-Ends (some inner) template = eval_expression-Ends (std.trim inner)
  evaluate_part-Ends none template =
      Ensures-bind (λ o. Unit) (λ v. Unit)
        (interpolate_loop std ctx (2 * length template + 2) [] template) _
        (interpolate_loop-Ends (2 * length template + 2) [] template (omega arith)) (λ o u. tt)

  -- Whatever the template and the data, the evaluation ends with a value or an error: the fuel of
  -- the tokenizer, of the evaluator and of the interpolation is enough.
  pub evaluate_returns : (template : Text) → evaluate std ctx template ≢ out_of_fuel
  unfolding evaluate
  evaluate_returns template e =
      absurd (rw e at (evaluate_part-Ends (single_expression std template) template))
