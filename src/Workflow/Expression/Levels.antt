-- ===== src/Workflow/Expression/Levels.antt =====
-- What the levels of the evaluator compute, from the operators of each level and from its operands.
use ferris_cms.Prelude.{
  ℕ, zero, suc, ◌+◌, ◌≤◌, ◌<◌, ◌≡◌, inl, inr, refl, Option, none, some, List, [], ◌∷◌, length,
  Option-cases, arith,
}
use ferris_cms.Schema.Payload.{Json}
use ferris_cms.Workflow.Expression.{Std, Context, Result, ok, err, out_of_fuel, ◌>>=◌}
use ferris_cms.Workflow.Expression.Tokens.{Tok}
use ferris_cms.Workflow.Expression.Eval.{
  Combine, Method, next_op, level_loop, level, term_level, additive_level, comparison_level,
  equality_level, or_level, or_op, and_op, equality_op, comparison_op, additive_op, term_op,
}
use ferris_cms.Workflow.Expression.Costs.{Ensures, Below, Takes, level-Takes}
use ferris_cms.Workflow.Expression.Syntax.{
  Operator, times, divide, add, subtract, greater, greater_equal, less, less_equal, equals, differs,
  both, either, rank, sign, applied,
}

module _ {A B C : Type 0} where
  pub bind_assoc :
      (m : Result A) (f : A → Result B) (g : B → Result C)
      → ((m >>= f) >>= g) ≡ (m >>= λ a. f a >>= g)
  bind_assoc (ok a) f g = refl
  bind_assoc err f g = refl
  bind_assoc out_of_fuel f g = refl

module _ {A B : Type 0} where
  pub bind_same :
      (m : Result A) (f g : A → Result B) → ((a : A) → f a ≡ g a) → (m >>= f) ≡ (m >>= g)
  bind_same (ok a) f g h = h a
  bind_same err f g h = refl
  bind_same out_of_fuel f g h = refl

  -- the same for a run whose results have the property `P`
  bind_same_if :
      (P : A → Type 0) (m : Result A) (f g : A → Result B)
      → Ensures P m
      → ((a : A) → P a → f a ≡ g a)
      → (m >>= f) ≡ (m >>= g)
  bind_same_if P (ok a) f g e h = h a e
  bind_same_if P err f g e h = refl
  bind_same_if P out_of_fuel f g e h = refl

module _ {N F : Type 0} (std : Std N F) (ctx : Context N) where
  -- The levels from `term` to `or` have the numbers 0 to 5.
  abbrev pub rank_ops : ℕ → Tok F → Option (Combine std ctx)
  rank_ops zero = term_op std ctx
  rank_ops (suc zero) = additive_op std ctx
  rank_ops (suc (suc zero)) = comparison_op std ctx
  rank_ops (suc (suc (suc zero))) = equality_op std ctx
  rank_ops (suc (suc (suc (suc zero)))) = and_op std ctx
  rank_ops (suc (suc (suc (suc (suc zero))))) = or_op std ctx
  rank_ops _ = λ t. none

  -- the method whose operators have ranks below `k`
  unfoldable pub run : ℕ → Method std ctx → Method std ctx
  unfolding level
  run zero unary = unary
  run (suc k) unary = level std ctx (rank_ops k) (run k unary)

  pub or_level-run :
      (unary : Method std ctx) (toks : List (Tok F))
      → or_level std ctx unary toks ≡ run 6 unary toks
  unfolding run or_level equality_level comparison_level additive_level term_level
  or_level-run unary toks = refl

  pub next_op-sign :
      (op : Operator) (rest : List (Tok F))
      → next_op std ctx (rank_ops (rank op)) (sign op ∷ rest) ≡ some (applied std ctx op, rest)
  unfolding applied
  next_op-sign times rest = refl
  next_op-sign divide rest = refl
  next_op-sign add rest = refl
  next_op-sign subtract rest = refl
  next_op-sign greater rest = refl
  next_op-sign greater_equal rest = refl
  next_op-sign less rest = refl
  next_op-sign less_equal rest = refl
  next_op-sign equals rest = refl
  next_op-sign differs rest = refl
  next_op-sign both rest = refl
  next_op-sign either rest = refl

  pub run-Takes :
      (m k : ℕ) (unary : Method std ctx) → Takes std ctx m unary → Takes std ctx m (run k unary)
  unfolding run
  run-Takes m zero unary h = h
  run-Takes m (suc k) unary h =
      level-Takes std ctx m (rank_ops k) (run k unary) (run-Takes m k unary h)

  -- Where an operand takes a token, any fuel above the number of tokens does the same.
  pub level_loop_fuel :
      (m f f' : ℕ) (ops : Tok F → Option (Combine std ctx)) (operand : Method std ctx) (v : Json N)
      (toks : List (Tok F))
      → Takes std ctx m operand
      → length toks ≤ m
      → length toks < f
      → length toks < f'
      → level_loop std ctx f ops operand v toks ≡ level_loop std ctx f' ops operand v toks
  unfolding level_loop
  level_loop_fuel m zero f' ops operand v toks h l k k' = absurd (omega arith)
  level_loop_fuel m (suc f) zero ops operand v toks h l k k' = absurd (omega arith)
  level_loop_fuel m (suc f) (suc f') ops operand v [] h l k k' = refl
  level_loop_fuel m (suc f) (suc f') ops operand v (t ∷ rest) h l k k' =
      elim (Option-cases (ops t)) [
        | inl e ↦ rw (e, level_loop) refl
        | inr (g, e) ↦
            rw (e, level_loop)
              (bind_same_if (Below (length rest)) (operand rest) _ _ (h rest (omega arith))
                λ (r, left) q.
                  level_loop_fuel m f f' ops operand (g v r) left h (omega arith) (omega arith)
                    (omega arith))
      ]

  -- what a level does after its first operand
  abbrev pub continue : ℕ → Method std ctx → Json N → Method std ctx
  continue k unary v toks = level_loop std ctx (length toks + 1) (rank_ops k) (run k unary) v toks

  pub continue_stops :
      (k : ℕ) (unary : Method std ctx) (v : Json N) (toks : List (Tok F))
      → next_op std ctx (rank_ops k) toks ≡ none
      → continue k unary v toks ≡ ok (v, toks)
  unfolding level_loop
  continue_stops k unary v toks e = ends (length toks + 1) (omega arith)
    where
      ends : (f : ℕ) → 0 < f → level_loop std ctx f (rank_ops k) (run k unary) v toks ≡ ok (v, toks)
      ends zero h = absurd (omega arith)
      ends (suc f) h = rw (e, level_loop) refl

  loop_operator :
      (f : ℕ) (op : Operator) (unary : Method std ctx) (v : Json N) (rest : List (Tok F))
      → Takes std ctx (length rest) unary
      → length rest + 1 < f
      → level_loop std ctx f (rank_ops (rank op)) (run (rank op) unary) v (sign op ∷ rest) ≡ (
          run (rank op) unary rest >>= λ (r, left).
          continue (rank op) unary (applied std ctx op v r) left)
  unfolding level_loop
  loop_operator zero op unary v rest h l = absurd (omega arith)
  loop_operator (suc f) op unary v rest h l =
      let operand = run-Takes (length rest) (rank op) unary h in
      rw (next_op-sign op rest, level_loop)
        (bind_same_if (Below (length rest)) (run (rank op) unary rest) _ _
          (operand rest (omega arith))
          λ (r, left) q.
            level_loop_fuel (length rest) f (length left + 1) (rank_ops (rank op))
              (run (rank op) unary) (applied std ctx op v r) left operand (omega arith)
              (omega arith) (omega arith))

  -- After an operator comes an operand, and so on.
  pub continue_operator :
      (op : Operator) (unary : Method std ctx) (v : Json N) (rest : List (Tok F))
      → Takes std ctx (length rest) unary
      → continue (rank op) unary v (sign op ∷ rest) ≡ (
          run (rank op) unary rest >>= λ (r, left).
          continue (rank op) unary (applied std ctx op v r) left)
  continue_operator op unary v rest h =
      loop_operator (length (sign op ∷ rest) + 1) op unary v rest h (omega arith)
