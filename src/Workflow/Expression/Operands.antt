-- ===== src/Workflow/Expression/Operands.antt =====
-- The operands of the evaluator: one token, a member, an item, and the prefixes.
use ferris_cms.Prelude.{
  ℕ, zero, suc, ◌+◌, ◌*◌, ◌≤◌, ◌<◌, ◌≡◌, ◌∙◌, refl, ap, sym, Bool, true, false, not, List, [], ◌∷◌,
  length, Text, arith,
}
use ferris_cms.Schema.Payload.{Json, null, bool}
use ferris_cms.Workflow.Expression.{Std, Context, Result, ok, err, out_of_fuel, ◌>>=◌}
use ferris_cms.Workflow.Expression.Tokens.{
  Tok, num, ident, ref, minus, bang, l_paren, l_bracket, r_bracket, dot,
}
use ferris_cms.Workflow.Expression.Value.{get_field, index_value, truthy, num_bin}
use ferris_cms.Workflow.Expression.Eval.{
  expect_bracket, constant, resolve_reference, eval_or, eval_unary, postfix_loop,
}
use ferris_cms.Workflow.Expression.Levels.{bind_assoc, bind_same, run}
use ferris_cms.Workflow.Expression.Reads.{is_call, Stops, Writer, Operand, Reads, eval_or-Reads}
use ferris_cms.Workflow.Expression.Syntax.{
  rank, Tree, number, text, name, reference, member, item, binary, looseness, fits, bracket,
  written, length-written, meaning,
}

-- an expression can begin with these tokens
abbrev pub opens : {F : Type 0} → List (Tok F) → Bool
opens (num x ∷ rest) = true
opens (Tok.str s ∷ rest) = true
opens (ident s ∷ rest) = true
opens (ref s ∷ rest) = true
opens (bang ∷ rest) = true
opens (minus ∷ rest) = true
opens (l_paren ∷ rest) = true
opens _ = false

module _ {F : Type 0} where
  opens-bracket :
      (b : Bool) (w : List (Tok F) → List (Tok F)) (rest : List (Tok F))
      → opens (w rest) ≡ true
      → opens (bracket b w rest) ≡ true
  opens-bracket true w rest h = h
  opens-bracket false w rest h = refl

  pub opens-written : (a : Tree F) (rest : List (Tok F)) → opens (written a rest) ≡ true
  unfolding written
  opens-written (member a s) rest =
      opens-bracket (fits (looseness a) 0) (written a) _ (opens-written a _)
  opens-written (item a i) rest =
      opens-bracket (fits (looseness a) 0) (written a) _ (opens-written a _)
  opens-written (binary op a b) rest =
      opens-bracket (fits (looseness a) (suc (suc (rank op)))) (written a) _ (opens-written a _)
  opens-written (number x) rest = refl
  opens-written _ rest = refl

module _ {N F : Type 0} (std : Std N F) (ctx : Context N) where
  Stops-r_bracket : (rest : List (Tok F)) → Stops std ctx 6 (r_bracket ∷ rest)
  Stops-r_bracket rest = (refl, (refl, (refl, (refl, (refl, (refl, refl))))))

  -- operands that are one token
  atom :
      (a : Tree F) (t : Tok F)
      → ((rest : List (Tok F)) → written a rest ≡ t ∷ rest)
      → ((f : ℕ) (rest : List (Tok F))
          → is_call rest ≡ false
          → eval_unary std ctx (suc (suc f)) (t ∷ rest)
            ≡ (meaning std ctx a >>= λ v. postfix_loop std ctx (suc f) v rest))
      → Operand std ctx (written a) (meaning std ctx a)
  unfolding Operand
  atom a t w h zero rest c l = absurd (omega arith)
  atom a t w h (suc f) rest c l =
      (suc f, omega (arith, length-written a rest), rw (w rest) (h f rest c))

  pub number-Operand : (x : F) → Operand std ctx (written (number x)) (meaning std ctx (number x))
  unfolding written meaning eval_unary
  number-Operand x = atom (number x) (num x) (λ rest. refl) λ f rest c. refl

  pub text-Operand : (s : Text) → Operand std ctx (written (text s)) (meaning std ctx (text s))
  unfolding written meaning eval_unary
  text-Operand s = atom (text s) (Tok.str s) (λ rest. refl) λ f rest c. refl

  pub reference-Operand :
      (s : Text) → Operand std ctx (written (reference s)) (meaning std ctx (reference s))
  unfolding written meaning eval_unary
  reference-Operand s =
      atom (reference s) (ref s) (λ rest. refl)
        λ f rest c. bind_assoc (resolve_reference std ctx s) _ _

  pub name-Operand : (s : Text) → Operand std ctx (written (name s)) (meaning std ctx (name s))
  unfolding written meaning eval_unary
  name-Operand s = atom (name s) (ident s) (λ rest. refl) plain
    where
      plain :
          (f : ℕ) (rest : List (Tok F))
          → is_call rest ≡ false
          → eval_unary std ctx (suc (suc f)) (ident s ∷ rest)
            ≡ (constant std ctx s >>= λ v. postfix_loop std ctx (suc f) v rest)
      plain f (l_paren ∷ rest) c = cc c
      plain f [] c = bind_assoc (constant std ctx s) _ _
      plain f (t ∷ rest) c = bind_assoc (constant std ctx s) _ _

  pub member-Operand :
      (w : Writer std ctx) (d : Result (Json N)) (s : Text)
      → Operand std ctx w d
      → Operand std ctx (λ rest. w (dot ∷ ident s ∷ rest)) (d >>= λ v. ok (get_field v s))
  unfolding Operand postfix_loop
  member-Operand w d s h f rest c l =
      let (g, m, e) = h f (dot ∷ ident s ∷ rest) refl l in next g m e
    where
      next :
          (g : ℕ)
          → 8 * length (dot ∷ ident s ∷ rest) + 1 ≤ g
          → eval_unary std ctx (suc f) (w (dot ∷ ident s ∷ rest))
            ≡ (d >>= λ v. postfix_loop std ctx g v (dot ∷ ident s ∷ rest))
          → (g' : ℕ) × (8 * length rest + 1 ≤ g')
            × (eval_unary std ctx (suc f) (w (dot ∷ ident s ∷ rest))
                ≡ ((d >>= λ v. ok (get_field v s)) >>= λ v. postfix_loop std ctx g' v rest))
      next zero m e = absurd (omega arith)
      next (suc g) m e = (g, omega arith, e ∙ sym (bind_assoc d (λ v. ok (get_field v s)) _))

  -- the tokens of an index do not close it at once
  postfix_loop_index :
      (g : ℕ) (v : Json N) (toks : List (Tok F))
      → opens toks ≡ true
      → postfix_loop std ctx (suc g) v (l_bracket ∷ toks) ≡ (
          eval_or std ctx g toks >>= λ (i, left). expect_bracket i left >>= λ (i', left').
          postfix_loop std ctx g (index_value std v i') left')
  unfolding postfix_loop eval_or
  postfix_loop_index g v (r_bracket ∷ rest) h = cc h
  postfix_loop_index g v [] h = cc h
  postfix_loop_index g v (t ∷ rest) h = refl

  bracket_bind :
      {B : Type 0} (d : Result (Json N)) (next : Json N → List (Tok F) → Result B)
      (rest : List (Tok F))
      → ((d >>= λ i. ok (i, r_bracket ∷ rest)) >>= λ (i, left).
          expect_bracket i left >>= λ (i', left'). next i' left')
        ≡ (d >>= λ i. next i rest)
  unfolding expect_bracket
  bracket_bind (ok v) next rest = refl
  bracket_bind err next rest = refl
  bracket_bind out_of_fuel next rest = refl

  pub item-Operand :
      (w wi : Writer std ctx) (d di : Result (Json N))
      → Operand std ctx w d
      → Reads std ctx 6 wi di
      → ((rest : List (Tok F)) → length rest < length (wi rest))
      → ((rest : List (Tok F)) → opens (wi rest) ≡ true)
      → Operand std ctx
          (λ rest. w (l_bracket ∷ wi (r_bracket ∷ rest)))
          (d >>= λ v. di >>= λ i. ok (index_value std v i))
  unfolding Operand
  item-Operand w wi d di h hi long begins f rest c l =
      let (g, m, e) = h f (l_bracket ∷ wi (r_bracket ∷ rest)) refl l in next g m e
    where
      next :
          (g : ℕ)
          → 8 * length (l_bracket ∷ wi (r_bracket ∷ rest)) + 1 ≤ g
          → eval_unary std ctx (suc f) (w (l_bracket ∷ wi (r_bracket ∷ rest)))
            ≡ (d >>= λ v. postfix_loop std ctx g v (l_bracket ∷ wi (r_bracket ∷ rest)))
          → (g' : ℕ) × (8 * length rest + 1 ≤ g')
            × (eval_unary std ctx (suc f) (w (l_bracket ∷ wi (r_bracket ∷ rest))) ≡ (
                (d >>= λ v. di >>= λ i. ok (index_value std v i)) >>= λ v.
                postfix_loop std ctx g' v rest))
      next zero m e = absurd (omega arith)
      next (suc g) m e =
          let inner =
            eval_or-Reads std ctx wi di hi g (r_bracket ∷ rest) (Stops-r_bracket rest)
              (omega arith) in
          let step = λ (v : Json N).
            postfix_loop_index g v (wi (r_bracket ∷ rest)) (begins (r_bracket ∷ rest))
            ∙ ap
                (λ r. r >>= λ (i, left). expect_bracket i left >>= λ (i', left').
                  postfix_loop std ctx g (index_value std v i') left')
                inner
            ∙ bracket_bind di (λ i left. postfix_loop std ctx g (index_value std v i) left) rest
            ∙ sym (bind_assoc di (λ i. ok (index_value std v i)) _) in
          (
            g,
            omega (arith, long (r_bracket ∷ rest)),
            e ∙ bind_same d _ _ step ∙ sym (bind_assoc d _ _),
          )

  prefix_bind :
      (d : Result (Json N)) (g : Json N → Json N) (rest : List (Tok F))
      → ◌>>=◌ {B = Json N × List (Tok F)}
          (◌>>=◌ {B = Json N × List (Tok F)} d (λ v. ok (v, rest)))
          (λ (v, left). ok (g v, left))
        ≡ ((d >>= λ v. ok (g v)) >>= λ v. ok (v, rest))
  prefix_bind (ok v) g rest = refl
  prefix_bind err g rest = refl
  prefix_bind out_of_fuel g rest = refl

  pub negation-Reads :
      (w : Writer std ctx) (d : Result (Json N))
      → Reads std ctx 0 w d
      → Reads std ctx 0 (λ rest. bang ∷ w rest) (d >>= λ v. ok (bool (not (truthy std v))))
  unfolding Reads run eval_unary
  negation-Reads w d h zero rest s l = absurd (omega arith)
  negation-Reads w d h (suc f) rest s l =
      let g = λ (v : Json N). bool (not (truthy std v)) in
      ap (λ r. r >>= λ (v, left). ok (g v, left)) (h f rest s (omega arith)) ∙ prefix_bind d g rest

  pub minus-Reads :
      (w : Writer std ctx) (d : Result (Json N))
      → Reads std ctx 0 w d
      → Reads std ctx 0
          (λ rest. minus ∷ w rest)
          (d >>= λ v. ok (num_bin std null v (λ x y. std.neg y)))
  unfolding Reads run eval_unary
  minus-Reads w d h zero rest s l = absurd (omega arith)
  minus-Reads w d h (suc f) rest s l =
      let g = λ (v : Json N). num_bin std null v (λ x y. std.neg y) in
      ap (λ r. r >>= λ (v, left). ok (g v, left)) (h f rest s (omega arith)) ∙ prefix_bind d g rest
