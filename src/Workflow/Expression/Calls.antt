-- ===== src/Workflow/Expression/Calls.antt =====
-- The calls of functions: their arguments are read from the left to the right.
use ferris_cms.Prelude.{
  ℕ, zero, suc, ◌+◌, ◌*◌, ◌≤◌, ◌≡◌, ◌∙◌, refl, ap, sym, true, List, [], ◌∷◌, ◌++◌, length, Text,
  arith,
}
use mathlib.Core.List.{append_assoc, append-nil}
use ferris_cms.Schema.Payload.{Json}
use ferris_cms.Workflow.Expression.{Std, Context, Result, ok, err, out_of_fuel, ◌>>=◌}
use ferris_cms.Workflow.Expression.Tokens.{Tok, r_paren}
use ferris_cms.Workflow.Expression.Value.{call_function}
use ferris_cms.Workflow.Expression.Eval.{
  eval_unary, postfix_loop, eval_args, args_loop, comma_match, close_call, expect_paren,
}
use ferris_cms.Workflow.Expression.Levels.{bind_assoc, bind_same}
use ferris_cms.Workflow.Expression.Reads.{Stops, Operand, Reads, eval_or-Reads}
use ferris_cms.Workflow.Expression.Syntax.{
  Tree, call, Trees, nil, cons, written_all, written_more, meanings, written, length-written,
  meaning,
}
use ferris_cms.Workflow.Expression.Operands.{opens, opens-written}

module _ {N F : Type 0} (std : Std N F) (ctx : Context N) where
  Stops-written_more :
      (trees : Trees F) (rest : List (Tok F))
      → Stops std ctx 6 (written_more trees (r_paren ∷ rest))
  unfolding written_more
  Stops-written_more nil rest = (refl, (refl, (refl, (refl, (refl, (refl, refl))))))
  Stops-written_more (cons a more) rest = (refl, (refl, (refl, (refl, (refl, (refl, refl))))))

  -- the end of a call, where the arguments `args` have been read
  comma_match_end :
      (f : ℕ) (args : List (Json N)) (rest : List (Tok F))
      → comma_match std ctx (suc f) args (r_paren ∷ rest) ≡ ok (args, r_paren ∷ rest)
  unfolding comma_match
  comma_match_end f args rest = refl

  -- The arguments that are left are added to those that were read.
  pub ReadsMore : Trees F → Type 0
  ReadsMore trees =
      (f : ℕ) (args : List (Json N)) (rest : List (Tok F))
      → 8 * length (written_more trees (r_paren ∷ rest)) + 1 ≤ f
      → comma_match std ctx f args (written_more trees (r_paren ∷ rest))
        ≡ (meanings std ctx trees >>= λ vs. ok (args ++ vs, r_paren ∷ rest))

  args_loop-Reads :
      (a : Tree F) (more : Trees F)
      → Reads std ctx 6 (written a) (meaning std ctx a)
      → ReadsMore more
      → (f : ℕ) (args : List (Json N)) (rest : List (Tok F))
      → 8 * length (written_all (cons a more) (r_paren ∷ rest)) + 4 ≤ f
      → args_loop std ctx f args (written_all (cons a more) (r_paren ∷ rest))
        ≡ (meanings std ctx (cons a more) >>= λ vs. ok (args ++ vs, r_paren ∷ rest))
  unfolding ReadsMore args_loop written_all meanings
  args_loop-Reads a more h hs zero args rest l = absurd (omega arith)
  args_loop-Reads a more h hs (suc f) args rest l =
      let left = written_more more (r_paren ∷ rest) in
      let shorter = length-written a left in
      let first =
        eval_or-Reads std ctx (written a) (meaning std ctx a) h f left
          (Stops-written_more more rest) (omega arith) in
      let added = λ (v : Json N).
        hs f (args ++ v ∷ []) rest (omega arith)
        ∙ bind_same (meanings std ctx more) _ _
            (λ vs. ap (λ l. ok (l, r_paren ∷ rest)) (append_assoc args (v ∷ []) vs))
        ∙ sym (bind_assoc (meanings std ctx more) (λ vs. ok (v ∷ vs)) _) in
      ap (λ r. r >>= λ (v, toks). comma_match std ctx f (args ++ v ∷ []) toks) first
      ∙ bind_assoc (meaning std ctx a) _ _
      ∙ bind_same (meaning std ctx a) _ _ (λ v. added v)
      ∙ sym (bind_assoc (meaning std ctx a) _ _)

  pub ReadsMore-nil : ReadsMore nil
  unfolding ReadsMore written_more meanings comma_match
  ReadsMore-nil zero args rest l = absurd (omega arith)
  ReadsMore-nil (suc f) args rest l = ap (λ l'. ok (l', r_paren ∷ rest)) (sym (append-nil args))

  pub ReadsMore-cons :
      (a : Tree F) (more : Trees F)
      → Reads std ctx 6 (written a) (meaning std ctx a)
      → ReadsMore more
      → ReadsMore (cons a more)
  unfolding ReadsMore written_more written_all comma_match
  ReadsMore-cons a more h hs zero args rest l = absurd (omega arith)
  ReadsMore-cons a more h hs (suc f) args rest l =
      args_loop-Reads a more h hs f args rest (omega arith)

  -- The arguments of a call are read, up to its parenthesis.
  pub ReadsAll : Trees F → Type 0
  ReadsAll trees =
      (f : ℕ) (rest : List (Tok F))
      → 8 * length (written_all trees (r_paren ∷ rest)) + 5 ≤ f
      → eval_args std ctx f (written_all trees (r_paren ∷ rest))
        ≡ (meanings std ctx trees >>= λ vs. ok (vs, r_paren ∷ rest))

  pub ReadsAll-nil : ReadsAll nil
  unfolding ReadsAll written_all meanings eval_args
  ReadsAll-nil zero rest l = absurd (omega arith)
  ReadsAll-nil (suc f) rest l = refl

  eval_args-opens :
      (f : ℕ) (toks : List (Tok F))
      → opens toks ≡ true
      → eval_args std ctx (suc f) toks ≡ args_loop std ctx f [] toks
  unfolding eval_args args_loop
  eval_args-opens f (r_paren ∷ rest) h = cc
  eval_args-opens f [] h = cc
  eval_args-opens f (t ∷ rest) h = refl

  pub ReadsAll-cons :
      (a : Tree F) (more : Trees F)
      → Reads std ctx 6 (written a) (meaning std ctx a)
      → ReadsMore more
      → ReadsAll (cons a more)
  unfolding ReadsAll written_all
  ReadsAll-cons a more h hs zero rest l = absurd (omega arith)
  ReadsAll-cons a more h hs (suc f) rest l =
      eval_args-opens f (written_all (cons a more) (r_paren ∷ rest)) (opens-written a _)
      ∙ args_loop-Reads a more h hs f [] rest (omega arith)

  call_bind :
      {B : Type 0} (d : Result (List (Json N))) (s : Text) (next : Json N → List (Tok F) → Result B)
      (rest : List (Tok F))
      → (((d >>= λ vs. ok (vs, r_paren ∷ rest)) >>= λ r. close_call std ctx s r) >>= λ (v, left).
          next v left)
        ≡ ((d >>= λ vs. call_function std s vs) >>= λ v. next v rest)
  unfolding close_call expect_paren
  call_bind (ok vs) s next rest = bind_assoc (call_function std s vs) _ _
  call_bind err s next rest = refl
  call_bind out_of_fuel s next rest = refl

  pub call-Operand :
      (s : Text) (trees : Trees F)
      → ReadsAll trees
      → Operand std ctx (written (call s trees)) (meaning std ctx (call s trees))
  unfolding Operand ReadsAll written meaning eval_unary
  call-Operand s trees h zero rest c l = absurd (omega arith)
  call-Operand s trees h (suc f) rest c l = (
    suc f,
    omega (arith, length-written (call s trees) rest),
    ap
          (λ r. (r >>= λ x. close_call std ctx s x) >>= λ (v, left).
            postfix_loop std ctx (suc f) v left)
          (h f rest (omega arith))
        ∙ call_bind (meanings std ctx trees) s (postfix_loop std ctx (suc f)) rest,
  )
