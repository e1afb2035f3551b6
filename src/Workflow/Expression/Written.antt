-- ===== src/Workflow/Expression/Written.antt =====
-- The evaluator gives a written tree its meaning.
use ferris_cms.Prelude.{
  suc, ◌+◌, ◌*◌, ◌<◌, ◌≡◌, ◌∙◌, refl, ap, sym, true, List, [], ◌∷◌, length, arith,
}
use ferris_cms.Schema.Payload.{Json}
use ferris_cms.Workflow.Expression.{Std, Context, Result, ok, err, out_of_fuel, ◌>>=◌}
use ferris_cms.Workflow.Expression.Tokens.{Tok}
use ferris_cms.Workflow.Expression.Eval.{at_end, eval_tokens}
use ferris_cms.Workflow.Expression.Returns.{eval_unary-fits}
use ferris_cms.Workflow.Expression.Levels.{bind_assoc, bind_same, continue, continue_operator}
use ferris_cms.Workflow.Expression.Reads.{
  Stops-sign, Writer, Operand, unary, Reads-Operand, Reads, Chains, eval_or-Reads, IsRead,
  IsRead-bare,
}
use ferris_cms.Workflow.Expression.Syntax.{
  Operator, times, rank, sign, Tree, number, text, name, reference, member, item, negation,
  minus_of, binary, call, Trees, nil, cons, looseness, fits, written, length-written,
  length-bracket, applied, meaning,
}
use ferris_cms.Workflow.Expression.Operands.{
  opens-written, number-Operand, text-Operand, reference-Operand, name-Operand, member-Operand,
  item-Operand, negation-Reads, minus-Reads,
}
use ferris_cms.Workflow.Expression.Calls.{
  ReadsMore, ReadsAll, ReadsMore-nil, ReadsMore-cons, ReadsAll-nil, ReadsAll-cons, call-Operand,
}

rank-fits : (op : Operator) → fits (suc (suc (rank op))) 7 ≡ true
rank-fits times = refl
rank-fits _ = refl

module _ {N F : Type 0} (std : Std N F) (ctx : Context N) where
  binary-Chains :
      (op : Operator) (wa wb : Writer std ctx) (da db : Result (Json N))
      → Chains std ctx (rank op) wa da
      → Reads std ctx (rank op) wb db
      → ((rest : List (Tok F)) → length rest < length (wa rest))
      → Chains std ctx
          (rank op)
          (λ rest. wa (sign op ∷ wb rest))
          (da >>= λ v. db >>= λ r. ok (applied std ctx op v r))
  unfolding Chains Reads
  binary-Chains op wa wb da db ha hb long f rest s l =
      let next =
        λ (v : Json N) (left : List (Tok F)). continue std ctx (rank op) (unary std ctx f) v left in
      let after = long (sign op ∷ wb rest) in
      let step = λ (v : Json N).
        continue_operator std ctx op (unary std ctx f) v (wb rest)
          (λ ts q. eval_unary-fits std ctx f ts (omega arith))
        ∙ ap (λ m. m >>= λ (r, left). next (applied std ctx op v r) left)
            (hb f rest s (omega arith))
        ∙ bind_assoc db (λ r. ok (r, rest)) _
        ∙ sym (bind_assoc db (λ r. ok (applied std ctx op v r)) _) in
      ha f (sign op ∷ wb rest) (Stops-sign std ctx op (wb rest)) l
      ∙ bind_same da _ _ step
      ∙ sym (bind_assoc da _ _)

  Read : Tree F → Type 0
  Read a = IsRead std ctx (looseness a) (written a) (meaning std ctx a)

  Operand-IsRead :
      (w : Writer std ctx) (d : Result (Json N))
      → ((rest : List (Tok F)) → length rest < length (w rest))
      → Operand std ctx w d
      → IsRead std ctx 0 w d
  Operand-IsRead w d long h =
      IsRead-bare std ctx 0 w d long (λ _. h) (λ _. Reads-Operand std ctx w d h)
        (λ k e. absurd (omega arith)) refl

  IsRead-prefix :
      (w : Writer std ctx) (d : Result (Json N))
      → ((rest : List (Tok F)) → length rest < length (w rest))
      → Reads std ctx 0 w d
      → IsRead std ctx 1 w d
  IsRead-prefix w d long h =
      IsRead-bare std ctx 1 w d long (λ e. cc e) (λ _. h) (λ k e. absurd (omega arith)) refl

  IsRead-binary :
      (op : Operator) (w : Writer std ctx) (d : Result (Json N))
      → ((rest : List (Tok F)) → length rest < length (w rest))
      → Chains std ctx (rank op) w d
      → IsRead std ctx (suc (suc (rank op))) w d
  IsRead-binary op w d long h =
      IsRead-bare std ctx (suc (suc (rank op))) w d long (λ e. cc e) (λ e. cc e)
        (λ k e. let same : rank op ≡ k = omega arith in rw same at h) (rank-fits op)

  looseness-fits : (a : Tree F) → fits (looseness a) 7 ≡ true
  looseness-fits (binary op a b) = rank-fits op
  looseness-fits (number x) = refl
  looseness-fits _ = refl

  -- no parentheses around the whole
  whole : (a : Tree F) → Read a → Reads std ctx 6 (written a) (meaning std ctx a)
  unfolding Read
  whole a r = rw (looseness-fits a) at (r.reads 6)

  mutual
    unfolding Read written meaning

    tree-IsRead : (a : Tree F) → Read a
    tree-IsRead (number x) =
        Operand-IsRead _ _ (length-written (number x)) (number-Operand std ctx x)
    tree-IsRead (text s) = Operand-IsRead _ _ (length-written (text s)) (text-Operand std ctx s)
    tree-IsRead (name s) = Operand-IsRead _ _ (length-written (name s)) (name-Operand std ctx s)
    tree-IsRead (reference s) =
        Operand-IsRead _ _ (length-written (reference s)) (reference-Operand std ctx s)
    tree-IsRead (member a s) =
        Operand-IsRead _ _ (length-written (member a s))
          (member-Operand std ctx _ _ s ((tree-IsRead a).operand))
    tree-IsRead (item a i) = Operand-IsRead _ _ (length-written (item a i)) (
        item-Operand std ctx _ _ _ _ ((tree-IsRead a).operand) (whole i (tree-IsRead i))
          (length-written i) (opens-written i))
    tree-IsRead (negation a) =
        IsRead-prefix _ _ (length-written (negation a))
          (negation-Reads std ctx _ _ ((tree-IsRead a).reads 0))
    tree-IsRead (minus_of a) =
        IsRead-prefix _ _ (length-written (minus_of a))
          (minus-Reads std ctx _ _ ((tree-IsRead a).reads 0))
    tree-IsRead (binary op a b) = IsRead-binary op _ _ (length-written (binary op a b)) (
        binary-Chains op _ _ _ _ ((tree-IsRead a).chains (rank op))
          ((tree-IsRead b).reads (rank op))
          (length-bracket (fits (looseness a) (suc (suc (rank op)))) (written a)
            (length-written a)))
    tree-IsRead (call s trees) =
        Operand-IsRead _ _ (length-written (call s trees))
          (call-Operand std ctx s trees (all-Reads trees))

    all-Reads : (trees : Trees F) → ReadsAll std ctx trees
    all-Reads nil = ReadsAll-nil std ctx
    all-Reads (cons a more) =
        ReadsAll-cons std ctx a more (whole a (tree-IsRead a)) (more-Reads more)

    more-Reads : (trees : Trees F) → ReadsMore std ctx trees
    more-Reads nil = ReadsMore-nil std ctx
    more-Reads (cons a more) =
        ReadsMore-cons std ctx a more (whole a (tree-IsRead a)) (more-Reads more)

  -- Whatever the tree, the evaluation of what is written for it gives its meaning.
  pub eval_tokens-written : (a : Tree F) → eval_tokens std ctx (written a []) ≡ meaning std ctx a
  unfolding eval_tokens at_end
  eval_tokens-written a =
      let toks = written a [] in
      ap (λ r. r >>= λ x. at_end std ctx x)
        (eval_or-Reads std ctx (written a) (meaning std ctx a) (whole a (tree-IsRead a))
          (8 * length toks + 8) [] (refl, (refl, (refl, (refl, (refl, (refl, refl))))))
          (omega arith))
      ∙ ends (meaning std ctx a)
    where
      ends : (d : Result (Json N)) → ((d >>= λ v. ok (v, [])) >>= λ x. at_end std ctx x) ≡ d
      ends (ok v) = refl
      ends err = refl
      ends out_of_fuel = refl
