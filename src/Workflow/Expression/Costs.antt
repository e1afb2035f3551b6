-- ===== src/Workflow/Expression/Costs.antt =====
-- What a step of the evaluator leaves: an operand takes a token, and no level gives tokens back.
use ferris_cms.Prelude.{
  ℕ, zero, suc, ◌+◌, ◌≤◌, ◌<◌, inl, inr, Bool, true, false, Option, List, [], ◌∷◌, length, Text,
  lit, text_eq, if◌then◌else◌, Option-cases, arith,
}
use ferris_cms.Schema.Payload.{Json}
use ferris_cms.Workflow.Expression.{Std, Context, Result, ok, err, out_of_fuel, ◌>>=◌}
use ferris_cms.Workflow.Expression.Tokens.{Tok, r_paren, r_bracket}
use ferris_cms.Workflow.Expression.Value.{functions, call_function, call_named}
use ferris_cms.Workflow.Expression.Eval.{
  Step, Combine, Method, expect_paren, expect_bracket, level_loop, level, term_level,
  additive_level, comparison_level, equality_level, or_level, or_op, and_op, equality_op,
  comparison_op, additive_op, term_op, resolve_reference, constant, with_rest, close_call,
}

-- A run that ends, with a result for which `P` holds or with an error.
abbrev pub Ensures {ℓ} : {A : Type ℓ} → (A → Type 0) → Result A → Type 0
Ensures P (ok a) = P a
Ensures P err = Unit
Ensures P out_of_fuel = ⊥

abbrev pub Ends {ℓ} : {A : Type ℓ} → Result A → Type 0
Ends r = Ensures (λ v. Unit {0}) r

pub if-Ends : {A : Type 0} (b : Bool) (x y : Result A) → Ends x → Ends y → Ends (if b then x else y)
if-Ends true x y h k = h
if-Ends false x y h k = k

module _ {A B : Type 0} (P : A → Type 0) (Q : B → Type 0) where
  pub Ensures-bind :
      (m : Result A) (k : A → Result B)
      → Ensures P m
      → ((a : A) → P a → Ensures Q (k a))
      → Ensures Q (m >>= k)
  Ensures-bind (ok a) k h g = g a h
  Ensures-bind err k h g = tt
  Ensures-bind out_of_fuel k h g = absurd h

module _ {A : Type 0} (P Q : A → Type 0) where
  pub Ensures-mono : (m : Result A) → Ensures P m → ((a : A) → P a → Q a) → Ensures Q m
  Ensures-mono (ok a) h g = g a h
  Ensures-mono err h g = tt
  Ensures-mono out_of_fuel h g = absurd h

-- fewer than `n` tokens are left, and at most `n`
abbrev pub Below : {A F : Type 0} → ℕ → A × List (Tok F) → Type 0
Below n r = length r.1 < n

abbrev pub AtMost : {A F : Type 0} → ℕ → A × List (Tok F) → Type 0
AtMost n r = length r.1 ≤ n

pub expect_paren-fits :
    {A F : Type 0} (v : A) (toks : List (Tok F))
    → Ensures (Below (length toks)) (expect_paren v toks)
unfolding expect_paren
expect_paren-fits v (r_paren ∷ rest) = omega arith
expect_paren-fits v [] = tt
expect_paren-fits v (t ∷ rest) = ground arith

pub expect_bracket-fits :
    {A F : Type 0} (v : A) (toks : List (Tok F))
    → Ensures (Below (length toks)) (expect_bracket v toks)
unfolding expect_bracket
expect_bracket-fits v (r_bracket ∷ rest) = omega arith
expect_bracket-fits v [] = tt
expect_bracket-fits v (t ∷ rest) = ground arith

module _ {N F : Type 0} (std : Std N F) (ctx : Context N) where
  pub call_named-Ends : (name : Text) (fs : List (Text × Json N)) → Ends (call_named std name fs)
  unfolding call_named
  call_named-Ends name [] = tt
  call_named-Ends name ((f, v) ∷ fs) =
      if-Ends (text_eq name f) (ok v) (call_named std name fs) tt (call_named-Ends name fs)

  pub constant-Ends : (name : Text) → Ends (constant std ctx name)
  unfolding constant
  constant-Ends name =
      if-Ends (text_eq name (lit "true")) _ _ tt (
        if-Ends (text_eq name (lit "false")) _ _ tt (if-Ends (text_eq name (lit "null")) _ _ tt tt))

  pub resolve_reference-Ends : (name : Text) → Ends (resolve_reference std ctx name)
  unfolding resolve_reference
  resolve_reference-Ends name = if-Ends (text_eq name (lit "json")) _ _ tt (
      if-Ends (text_eq name (lit "itemIndex")) _ _ tt (
        if-Ends (text_eq name (lit "workflow")) _ _ tt (
          if-Ends (text_eq name (lit "execution")) _ _ tt (
            if-Ends (text_eq name (lit "now")) _ _ tt (
              if-Ends (text_eq name (lit "today")) _ _ tt (
                if-Ends (text_eq name (lit "env")) _ _ tt (
                  if-Ends (text_eq name (lit "node")) _ _ tt
                    (if-Ends (text_eq name (lit "items")) _ _ tt tt))))))))

  pub with_rest-fits :
      (n : ℕ) (rest : List (Tok F)) (r : Result (Json N))
      → Ends r
      → length rest < n
      → Ensures (Below n) (with_rest std ctx rest r)
  with_rest-fits n rest (ok v) h l = l
  with_rest-fits n rest err h l = tt
  with_rest-fits n rest out_of_fuel h l = absurd h

  pub close_call-fits :
      (name : Text) (args : List (Json N)) (toks : List (Tok F))
      → Ensures (Below (length toks)) (close_call std ctx name (args, toks))
  unfolding close_call call_function
  close_call-fits name args toks =
      Ensures-bind (Below (length toks)) (Below (length toks)) (expect_paren args toks) _
        (expect_paren-fits args toks)
        (λ (args', rest) l.
          with_rest-fits (length toks) rest _ (call_named-Ends name (functions std args')) l)

  -- an operand takes a token, where at most `m` are left
  abbrev pub Takes : ℕ → Method std ctx → Type 0
  Takes m operand =
      (toks : List (Tok F)) → length toks ≤ m → Ensures (Below (length toks)) (operand toks)

  pub level_loop-fits :
      (m f : ℕ) (ops : Tok F → Option (Combine std ctx)) (operand : Method std ctx) (v : Json N)
      (toks : List (Tok F))
      → Takes m operand
      → length toks ≤ m
      → length toks < f
      → Ensures (AtMost (length toks)) (level_loop std ctx f ops operand v toks)
  unfolding level_loop
  level_loop-fits m zero ops operand v toks h l k = absurd (omega arith)
  level_loop-fits m (suc f) ops operand v [] h l k = omega arith
  level_loop-fits m (suc f) ops operand v (t ∷ rest) h l k = elim (Option-cases (ops t)) [
    | inl e ↦ rw (e, level_loop) (omega arith)
    | inr (g, e) ↦
        rw (e, level_loop)
          (Ensures-bind (Below (length rest)) (AtMost (suc (length rest))) (operand rest) _
            (h rest (omega arith))
            λ (r, left) q.
              Ensures-mono (AtMost (length left)) (AtMost (suc (length rest)))
                (level_loop std ctx f ops operand (g v r) left)
                (level_loop-fits m f ops operand (g v r) left h (omega arith) (omega arith))
                (λ (w, end) z. omega arith))
  ]

  pub level-Takes :
      (m : ℕ) (ops : Tok F → Option (Combine std ctx)) (operand : Method std ctx)
      → Takes m operand
      → Takes m (level std ctx ops operand)
  unfolding level
  level-Takes m ops operand h toks l =
      Ensures-bind (Below (length toks)) (Below (length toks)) (operand toks) _ (h toks l)
        λ (v, rest) q.
          Ensures-mono (AtMost (length rest)) (Below (length toks)) _
            (level_loop-fits m (length rest + 1) ops operand v rest h (omega arith) (omega arith))
            (λ (w, end) z. omega arith)

  pub or_level-Takes :
      (m : ℕ) (unary : Method std ctx) → Takes m unary → Takes m (or_level std ctx unary)
  unfolding or_level equality_level comparison_level additive_level term_level
  or_level-Takes m unary h = level-Takes m (or_op std ctx) _ (
      level-Takes m (and_op std ctx) _ (
        level-Takes m (equality_op std ctx) _ (
          level-Takes m (comparison_op std ctx) _
            (level-Takes m (additive_op std ctx) _ (level-Takes m (term_op std ctx) unary h)))))

  pub bind-fits :
      {A B : Type 0} (k n : ℕ) (r : Step A F) (next : A × List (Tok F) → Step B F)
      → Ensures (Below k) r
      → ((a : A × List (Tok F)) → Below k a → Ensures (Below n) (next a))
      → Ensures (Below n) (r >>= next)
  bind-fits k n r next h g = Ensures-bind (Below k) (Below n) r next h g

  pub weaken :
      {A : Type 0} (k n : ℕ) (r : Step A F) → Ensures (AtMost k) r → k < n → Ensures (Below n) r
  weaken k n r h l = Ensures-mono (AtMost k) (Below n) r h (λ (a, rest) q. omega arith)

  pub weaken_le :
      {A : Type 0} (k n : ℕ) (r : Step A F) → Ensures (AtMost k) r → k ≤ n → Ensures (AtMost n) r
  weaken_le k n r h l = Ensures-mono (AtMost k) (AtMost n) r h (λ (a, rest) q. omega arith)
