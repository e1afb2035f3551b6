-- ===== src/Workflow/Expression/Reads.antt =====
-- What the methods of the evaluator make of a written piece, whose meaning is `d`.
use ferris_cms.Prelude.{
  ℕ, zero, suc, ◌+◌, ◌*◌, ◌≤◌, ◌<◌, ◌≡◌, ◌∙◌, ◌⊎◌, inl, inr, refl, ap, sym, Bool, true, false, none,
  List, [], ◌∷◌, length, arith,
}
use ferris_cms.Schema.Payload.{Json}
use ferris_cms.Workflow.Expression.{Std, Context, Result, ok, err, out_of_fuel, ◌>>=◌}
use ferris_cms.Workflow.Expression.Tokens.{Tok, l_paren, r_paren, l_bracket, dot}
use ferris_cms.Workflow.Expression.Eval.{
  Method, next_op, level, expect_paren, eval_or, eval_unary, postfix_loop, eval_primary,
}
use ferris_cms.Workflow.Expression.Levels.{
  bind_assoc, bind_same, rank_ops, run, or_level-run, continue, continue_stops,
}
use ferris_cms.Workflow.Expression.Syntax.{
  Operator, times, divide, add, subtract, greater, greater_equal, less, less_equal, equals, differs,
  both, either, rank, sign, fits, bracket,
}

-- the next token goes on with an operand
abbrev pub goes_on : {F : Type 0} → List (Tok F) → Bool
goes_on (dot ∷ rest) = true
goes_on (l_bracket ∷ rest) = true
goes_on (l_paren ∷ rest) = true
goes_on _ = false

abbrev pub is_call : {F : Type 0} → List (Tok F) → Bool
is_call (l_paren ∷ rest) = true
is_call _ = false

call_goes_on : {F : Type 0} (rest : List (Tok F)) → goes_on rest ≡ false → is_call rest ≡ false
call_goes_on (l_paren ∷ rest) h = cc h
call_goes_on [] h = refl
call_goes_on (t ∷ rest) h = ground arith

fits_refl : (n : ℕ) → fits n n ≡ true
fits_refl zero = refl
fits_refl (suc n) = fits_refl n

fits_cases : (n k : ℕ) → (n ≡ suc (suc k)) ⊎ (fits n (suc (suc k)) ≡ fits n (suc k))
fits_cases zero k = inr refl
fits_cases (suc zero) k = inr refl
fits_cases (suc (suc zero)) zero = inl refl
fits_cases (suc (suc (suc n))) zero = inr refl
fits_cases (suc (suc n)) (suc k) = elim (fits_cases (suc n) k) [
  | inl e ↦ inl (ap suc e)
  | inr e ↦ inr e
]

module _ {N F : Type 0} (std : Std N F) (ctx : Context N) where
  -- No token that follows goes on with an operand or is an operator of a rank below `k`.
  abbrev pub Stops : ℕ → List (Tok F) → Type 0
  Stops zero rest = goes_on rest ≡ false
  Stops (suc k) rest = (next_op std ctx (rank_ops std ctx k) rest ≡ none) × Stops k rest

  pub Stops-sign : (op : Operator) (rest : List (Tok F)) → Stops (rank op) (sign op ∷ rest)
  Stops-sign times rest = refl
  Stops-sign divide rest = refl
  Stops-sign add rest = (refl, refl)
  Stops-sign subtract rest = (refl, refl)
  Stops-sign greater rest = (refl, (refl, refl))
  Stops-sign greater_equal rest = (refl, (refl, refl))
  Stops-sign less rest = (refl, (refl, refl))
  Stops-sign less_equal rest = (refl, (refl, refl))
  Stops-sign equals rest = (refl, (refl, (refl, refl)))
  Stops-sign differs rest = (refl, (refl, (refl, refl)))
  Stops-sign both rest = (refl, (refl, (refl, (refl, refl))))
  Stops-sign either rest = (refl, (refl, (refl, (refl, (refl, refl)))))

  postfix_loop_stops :
      (g : ℕ) (v : Json N) (rest : List (Tok F))
      → 0 < g
      → goes_on rest ≡ false
      → postfix_loop std ctx g v rest ≡ ok (v, rest)
  unfolding postfix_loop
  postfix_loop_stops zero v rest l h = absurd (omega arith)
  postfix_loop_stops (suc g) v (dot ∷ rest) l h = cc h
  postfix_loop_stops (suc g) v (l_bracket ∷ rest) l h = cc h
  postfix_loop_stops (suc g) (Json.str s) (l_paren ∷ rest) l h = cc h
  postfix_loop_stops (suc g) v rest l h = ground arith

  abbrev pub Writer : Type 0
  Writer = List (Tok F) → List (Tok F)

  abbrev pub unary : ℕ → Method std ctx
  unary f = eval_unary std ctx f

  -- An operand is read, with what goes on with it.
  unfoldable pub Operand : Writer → Result (Json N) → Type 0
  Operand w d =
      (f : ℕ) (rest : List (Tok F))
      → is_call rest ≡ false
      → 8 * length (w rest) + 1 ≤ f
      → (g : ℕ) × (8 * length rest + 1 ≤ g)
        × (unary (suc f) (w rest) ≡ (d >>= λ v. postfix_loop std ctx g v rest))

  -- It is read by the method whose operators have ranks below `k`.
  unfoldable pub Reads : ℕ → Writer → Result (Json N) → Type 0
  Reads k w d =
      (f : ℕ) (rest : List (Tok F))
      → Stops k rest
      → 8 * length (w rest) + 2 ≤ f
      → run std ctx k (unary f) (w rest) ≡ (d >>= λ v. ok (v, rest))

  -- It is read by the next method, which goes on with an operator of rank `k` if there is one.
  unfoldable pub Chains : ℕ → Writer → Result (Json N) → Type 0
  Chains k w d =
      (f : ℕ) (rest : List (Tok F))
      → Stops k rest
      → 8 * length (w rest) + 2 ≤ f
      → run std ctx (suc k) (unary f) (w rest) ≡ (d >>= λ v. continue std ctx k (unary f) v rest)

  pub Reads-Operand : (w : Writer) (d : Result (Json N)) → Operand w d → Reads 0 w d
  unfolding Operand Reads run
  Reads-Operand w d h zero rest s l = absurd (omega arith)
  Reads-Operand w d h (suc f) rest s l =
      let (g, m, e) = h f rest (call_goes_on rest s) (omega arith) in
      e ∙ bind_same d _ _ λ v. postfix_loop_stops g v rest (omega arith) s

  Chains-Reads : (k : ℕ) (w : Writer) (d : Result (Json N)) → Reads k w d → Chains k w d
  unfolding Reads Chains run level
  Chains-Reads k w d h f rest s l = rw (h f rest s l) (bind_assoc d _ _)

  Reads-Chains : (k : ℕ) (w : Writer) (d : Result (Json N)) → Chains k w d → Reads (suc k) w d
  unfolding Reads Chains
  Reads-Chains k w d h f rest s l =
      h f rest s.1 l ∙ bind_same d _ _ λ v. continue_stops std ctx k (unary f) v rest s.0

  Reads-suc : (k : ℕ) (w : Writer) (d : Result (Json N)) → Reads k w d → Reads (suc k) w d
  Reads-suc k w d h = Reads-Chains k w d (Chains-Reads k w d h)

  Reads-all : (k : ℕ) (w : Writer) (d : Result (Json N)) → Reads 0 w d → Reads k w d
  Reads-all zero w d h = h
  Reads-all (suc k) w d h = Reads-suc k w d (Reads-all k w d h)

  pub eval_or-Reads :
      (w : Writer) (d : Result (Json N))
      → Reads 6 w d
      → (f : ℕ) (rest : List (Tok F)) → Stops 6 rest
      → 8 * length (w rest) + 3 ≤ f
      → eval_or std ctx f (w rest) ≡ (d >>= λ v. ok (v, rest))
  unfolding Reads eval_or
  eval_or-Reads w d h zero rest s l = absurd (omega arith)
  eval_or-Reads w d h (suc f) rest s l =
      or_level-run std ctx (unary f) (w rest) ∙ h f rest s (omega arith)

  pub Stops-r_paren : (rest : List (Tok F)) → Stops 6 (r_paren ∷ rest)
  Stops-r_paren rest = (refl, (refl, (refl, (refl, (refl, (refl, refl))))))

  paren_bind :
      {B : Type 0} (d : Result (Json N)) (next : Json N → List (Tok F) → Result B)
      (rest : List (Tok F))
      → (((d >>= λ v. ok (v, r_paren ∷ rest)) >>= λ (v, left). expect_paren v left) >>= λ (v, left).
          next v left)
        ≡ (d >>= λ v. next v rest)
  unfolding expect_paren
  paren_bind (ok v) next rest = refl
  paren_bind err next rest = refl
  paren_bind out_of_fuel next rest = refl

  Operand-paren :
      (w : Writer) (d : Result (Json N))
      → ((rest : List (Tok F)) → length rest < length (w rest))
      → Reads 6 w d
      → Operand (bracket false w) d
  unfolding Operand eval_unary eval_primary expect_paren
  Operand-paren w d long h zero rest c l = absurd (omega arith)
  Operand-paren w d long h (suc f) rest c l =
      let inner = eval_or-Reads w d h f (r_paren ∷ rest) (Stops-r_paren rest) (omega arith) in
      (
        suc f,
        omega (arith, long (r_paren ∷ rest)),
        ap
              (λ r. (r >>= λ (v, left). expect_paren v left) >>= λ (v, left).
                postfix_loop std ctx (suc f) v left)
              inner
            ∙ paren_bind d (postfix_loop std ctx (suc f)) rest,
      )

  Operand-bracket :
      (b : Bool) (w : Writer) (d : Result (Json N))
      → (b ≡ true → Operand w d)
      → Operand (bracket false w) d
      → Operand (bracket b w) d
  Operand-bracket true w d h k = h refl
  Operand-bracket false w d h k = k

  Reads-bracket :
      (k : ℕ) (b : Bool) (w : Writer) (d : Result (Json N))
      → (b ≡ true → Reads k w d)
      → Reads k (bracket false w) d
      → Reads k (bracket b w) d
  Reads-bracket k true w d h l = h refl
  Reads-bracket k false w d h l = l

  -- All that is read of a piece, with parentheses where its looseness `n` wants them.
  pub record IsRead (n : ℕ) (w : Writer) (d : Result (Json N)) : Type 0 where
    pub operand : Operand (bracket (fits n 0) w) d
    pub reads : (k : ℕ) → Reads k (bracket (fits n (suc k)) w) d
    pub chains : (k : ℕ) → Chains k (bracket (fits n (suc (suc k))) w) d

  -- what has to be shown of a piece without parentheses
  module _ (n : ℕ) (w : Writer) (d : Result (Json N))
      (long : (rest : List (Tok F)) → length rest < length (w rest))
      (operand : fits n 0 ≡ true → Operand w d) (prefix : fits n 1 ≡ true → Reads 0 w d)
      (chain : (k : ℕ) → n ≡ suc (suc k) → Chains k w d) where
    bare : (k : ℕ) → fits n (suc k) ≡ true → Reads k w d
    bare zero h = prefix h
    bare (suc k) h = elim (fits_cases n k) [
      | inl e ↦ Reads-Chains k w d (chain k e)
      | inr e ↦ Reads-suc k w d (bare k (sym e ∙ h))
    ]

    pub IsRead-bare : fits n 7 ≡ true → IsRead n w d
    IsRead-bare top =
        let paren = Operand-paren w d long (bare 6 top) in
        let first = Reads-Operand (bracket false w) d paren in
        let all = λ (k : ℕ).
          Reads-bracket k (fits n (suc k)) w d (bare k) (Reads-all k (bracket false w) d first) in
        record {
          operand = Operand-bracket (fits n 0) w d operand paren;
          reads = all;
          chains = λ k. chained k (fits_cases n k) (all k);
        }
      where
        chained :
            (k : ℕ)
            → (n ≡ suc (suc k)) ⊎ (fits n (suc (suc k)) ≡ fits n (suc k))
            → Reads k (bracket (fits n (suc k)) w) d
            → Chains k (bracket (fits n (suc (suc k))) w) d
        chained k (inl e) h = rw (ap (λ m. fits m (suc (suc k))) e ∙ fits_refl k) (chain k e)
        chained k (inr e) h = rw e (Chains-Reads k (bracket (fits n (suc k)) w) d h)
