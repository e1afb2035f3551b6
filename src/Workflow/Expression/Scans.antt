-- ===== src/Workflow/Expression/Scans.antt =====
-- No round of the tokenizer gives characters back, so that it ends on every text.
use ferris_cms.Prelude.{
  ℕ, zero, suc, ◌≤◌, ◌<◌, ◌≡◌, ◌⊎◌, inl, inr, refl, Bool, true, false, Option, none, some, [], ◌∷◌,
  length, Text, ◌==◌, if◌then◌else◌, arith,
}
use ferris_cms.Workflow.Expression.{Std}
use ferris_cms.Workflow.Expression.Tokens.{
  Tok, num, and_and, or_or, eq, ne, bang, ge, gt, le, lt, Round, skip, push, fail, span,
  string_body, prepend, escaped, number_round, string_round, ref_round, word_round, long_round,
  other_round, round, tokens, punctuation, drop_one,
}
use ferris_cms.Workflow.Expression.Template.{prepend_inner}
use ferris_cms.Workflow.Expression.Costs.{Ensures-bind, Ends}

-- what is left is at most `n` characters
unfoldable pub Left : ℕ → Option (Text × Text) → Type 0
Left n none = Unit
Left n (some (s, rest)) = length rest ≤ n

pub Left-none : (n : ℕ) → Left n none
unfolding Left
Left-none n = tt

pub Left-some : (n : ℕ) (s rest : Text) → length rest ≤ n → Left n (some (s, rest))
unfolding Left
Left-some n s rest h = h

Left-prepend : (n : ℕ) (c : ℕ) (r : Option (Text × Text)) → Left n r → Left n (prepend c r)
unfolding Left
Left-prepend n c none h = tt
Left-prepend n c (some (s, rest)) h = h

pub Left-mono : (n m : ℕ) (r : Option (Text × Text)) → n ≤ m → Left n r → Left m r
unfolding Left
Left-mono n m none l h = tt
Left-mono n m (some (s, rest)) l h = omega arith

pub Left-if :
    (n : ℕ) (b : Bool) (x y : Option (Text × Text))
    → Left n x
    → Left n y
    → Left n (if b then x else y)
Left-if n true x y h k = h
Left-if n false x y h k = k

pub Left-inner :
    (n : ℕ) (cs : Text) (r : Option (Text × Text)) → Left n r → Left n (prepend_inner cs r)
unfolding Left
Left-inner n cs none h = tt
Left-inner n cs (some (s, rest)) h = h

length-span : (p : ℕ → Bool) (s : Text) → length (span p s).1 ≤ length s
unfolding span
length-span p [] = omega arith
length-span p (c ∷ s) = ground (arith, length-span p s)

string_body-Left : (q : ℕ) (s : Text) → Left (length s) (string_body q s)
unfolding string_body
string_body-Left q [] = Left-none 0
string_body-Left q (c ∷ []) =
    Left-if 1 (c == q) (some ([], [])) none (Left-some 1 [] [] (omega arith)) (Left-none 1)
string_body-Left q (c ∷ (d ∷ s)) =
    let n = suc (suc (length s)) in
    Left-if n (c == q) _ _ (Left-some n [] (d ∷ s) (omega arith)) (
      Left-if n (c == 92) _ _
        (Left-prepend n (escaped d) (string_body q s)
          (Left-mono (length s) n _ (omega arith) (string_body-Left q s)))
        (Left-prepend n c (string_body q (d ∷ s))
          (Left-mono (suc (length s)) n _ (omega arith) (string_body-Left q (d ∷ s)))))

module _ {N F : Type 0} (std : Std N F) where
  -- a round leaves at most `n` characters
  unfoldable pub Leaves : ℕ → Round F → Type 0
  Leaves n (skip rest) = length rest ≤ n
  Leaves n (push t rest) = length rest ≤ n
  Leaves n fail = Unit

  Leaves-fail : (n : ℕ) → Leaves n fail
  unfolding Leaves
  Leaves-fail n = tt

  Leaves-push : (n : ℕ) (t : Tok F) (rest : Text) → length rest ≤ n → Leaves n (push t rest)
  unfolding Leaves
  Leaves-push n t rest h = h

  Leaves-skip : (n : ℕ) (rest : Text) → length rest ≤ n → Leaves n (skip rest)
  unfolding Leaves
  Leaves-skip n rest h = h

  Leaves-if :
      (n : ℕ) (b : Bool) (x y : Round F) → Leaves n x → Leaves n y → Leaves n (if b then x else y)
  Leaves-if n true x y h k = h
  Leaves-if n false x y h k = k

  number_round-Leaves :
      (n : ℕ) (r : Option F) (rest : Text) → length rest ≤ n → Leaves n (number_round std r rest)
  unfolding number_round
  number_round-Leaves n none rest h = Leaves-fail n
  number_round-Leaves n (some x) rest h = Leaves-push n (num x) rest h

  string_round-Leaves :
      (n : ℕ) (r : Option (Text × Text)) → Left n r → Leaves n (string_round std r)
  unfolding string_round Left
  string_round-Leaves n none h = Leaves-fail n
  string_round-Leaves n (some (s, rest)) h = Leaves-push n _ rest h

  word_round-Leaves : (c : ℕ) (s : Text) → Leaves (length s) (word_round std c s)
  unfolding word_round
  word_round-Leaves c s =
      let n = length s in
      Leaves-if n _ _ _ (number_round-Leaves n _ _ (length-span _ s))
        (Leaves-if n _ _ _ (Leaves-push n _ _ (length-span _ s)) (Leaves-fail n))

  length-drop_one : (s : Text) → length (drop_one s) ≤ length s
  length-drop_one [] = omega arith
  length-drop_one (c ∷ s) = omega arith

  long_round-Leaves : (c : ℕ) (s : Text) → Leaves (length s) (long_round std c s)
  unfolding long_round
  long_round-Leaves c s =
      let n = length s in
      let shorter = λ (t : Tok F). Leaves-push n t (drop_one s) (length-drop_one s) in
      let same = λ (t : Tok F). Leaves-push n t s (omega arith) in
      Leaves-if n _ _ _ (shorter and_and) (
        Leaves-if n _ _ _ (shorter or_or) (
          Leaves-if n _ _ _ (shorter eq) (
            Leaves-if n _ _ _ (shorter ne) (
              Leaves-if n _ _ _ (same bang) (
                Leaves-if n _ _ _ (shorter ge) (
                  Leaves-if n _ _ _ (same gt) (
                    Leaves-if n _ _ _ (shorter le)
                      (Leaves-if n _ _ _ (same lt) (word_round-Leaves c s)))))))))

  other_round-Leaves :
      (t : Option (Tok F)) (c : ℕ) (s : Text) → Leaves (length s) (other_round std t c s)
  unfolding other_round ref_round
  other_round-Leaves (some t) c s = Leaves-push _ t s (omega arith)
  other_round-Leaves none c s =
      let n = length s in
      Leaves-if n _ _ _ (Leaves-if n _ _ _ (Leaves-fail n) (Leaves-push n _ _ (length-span _ s))) (
        Leaves-if n _ _ _ (string_round-Leaves n (string_body c s) (string_body-Left c s))
          (long_round-Leaves c s))

  pub round-Leaves : (c : ℕ) (s : Text) → Leaves (length s) (round std c s)
  unfolding round
  round-Leaves c s =
      Leaves-if (length s) _ _ _ (Leaves-skip _ s (omega arith))
        (other_round-Leaves (punctuation std c) c s)

  Round-cases :
      (n : ℕ) (r : Round F)
      → Leaves n r
      → ((rest : Text) × (r ≡ skip rest) × (length rest ≤ n))
        ⊎ (((t : Tok F) × (rest : Text) × (r ≡ push t rest) × (length rest ≤ n)) ⊎ (r ≡ fail))
  unfolding Leaves
  Round-cases n (skip rest) h = inl (rest, refl, h)
  Round-cases n (push t rest) h = inr (inl (t, rest, refl, h))
  Round-cases n fail h = inr (inr refl)

  -- One unit of fuel for each character, and one for the end, is enough.
  pub tokens-Ends : (f : ℕ) (s : Text) → length s < f → Ends (tokens std f s)
  unfolding tokens
  tokens-Ends zero s h = absurd (omega arith)
  tokens-Ends (suc f) [] h = tt
  tokens-Ends (suc f) (c ∷ s) h = elim (Round-cases (length s) (round std c s) (round-Leaves c s)) [
    | inl (rest, e, l) ↦ rw (e, tokens) (tokens-Ends f rest (omega arith))
    | inr (inl (t, rest, e, l)) ↦
        rw (e, tokens)
          (Ensures-bind (λ ts. Unit) (λ ts. Unit) (tokens std f rest) _
            (tokens-Ends f rest (omega arith)) (λ ts u. tt))
    | inr (inr e) ↦ rw (e, tokens) tt
  ]
