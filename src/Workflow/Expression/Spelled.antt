-- ===== src/Workflow/Expression/Spelled.antt =====
-- The tokenizer reads back the tokens that were spelled.
use ferris_cms.Prelude.{
  ℕ, zero, suc, ◌+◌, ◌<◌, ◌≡◌, ◌∙◌, refl, ap, sym, true, false, ◌||◌, some, List, [], ◌∷◌, ◌++◌,
  length, Text, ◌==◌, Bool-cases, inl, inr, All, arith,
}
use mathlib.Core.List.{append_assoc}
use ferris_cms.Workflow.Expression.{Std, ok}
use ferris_cms.Workflow.Expression.Tokens.{
  Tok, num, ident, ref, plus, minus, star, slash, eq, ne, gt, ge, lt, le, and_and, or_or, bang,
  l_paren, r_paren, l_bracket, r_bracket, dot, comma, question, colon, push, escaped, prepend,
  string_body, is_ident_char, is_number_char, number_round, string_round, ref_round, word_round,
  long_round, other_round, round, tokens, tokenize,
}
use ferris_cms.Workflow.Expression.Scans.{Leaves, round-Leaves}
use ferris_cms.Workflow.Expression.Words.{
  span-AllOf, round-word, starts_number-digit, starts_number-letter,
}
use ferris_cms.Workflow.Expression.Spelling.{escape, spell, spelled, CanSpell}

string_body_plain :
    (c : ℕ) (t : Text)
    → c == 34 ≡ false
    → c == 92 ≡ false
    → string_body 34 (c ∷ t) ≡ prepend c (string_body 34 t)
unfolding string_body
string_body_plain c [] h k = ground arith
string_body_plain c (d ∷ t) h k = ground arith

string_body_close : (t : Text) → string_body 34 (34 ∷ t) ≡ some ([], t)
unfolding string_body
string_body_close [] = refl
string_body_close (d ∷ t) = refl

string_body-escape : (s rest : Text) → string_body 34 (escape s ++ 34 ∷ rest) ≡ some (s, rest)
unfolding escape string_body
string_body-escape [] rest = string_body_close rest
string_body-escape (c ∷ s) rest = elim (Bool-cases (c == 34 || c == 92)) [
  | inl e ↦ rw e (special c (escape s ++ 34 ∷ rest) e ∙ ap (prepend c) (string_body-escape s rest))
  | inr e ↦ rw e (
      string_body_plain c (escape s ++ 34 ∷ rest) (ground arith) (ground arith)
      ∙ ap (prepend c) (string_body-escape s rest))
]
  where
    special :
        (c : ℕ) (t : Text)
        → (c == 34 || c == 92) ≡ true
        → string_body 34 (92 ∷ c ∷ t) ≡ prepend c (string_body 34 t)
    special c t h = let e : escaped c ≡ c = ground arith in ap (λ d. prepend d (string_body 34 t)) e

module _ {N F : Type 0} (std : Std N F) (print : F → Text) where
  -- The first round on a token and a space pushes the token.
  Pushes : Tok F → Text → Type 0
  Pushes t rest =
      (c : ℕ) × (s : Text) × (spell std print t ++ 32 ∷ rest ≡ c ∷ s)
      × (round std c s ≡ push t (32 ∷ rest))

  num-Pushes : (x : F) (rest : Text) → CanSpell std print (num x) → Pushes (num x) rest
  unfolding Pushes CanSpell word_round number_round
  num-Pushes x rest (c, s, e, d, a, p) = (
    c,
    s ++ 32 ∷ rest,
    ap (λ t. t ++ 32 ∷ rest) e,
    round-word std c (s ++ 32 ∷ rest) (ground arith)
        ∙ rw (starts_number-digit std c (s ++ 32 ∷ rest) d)
            (rw (span-AllOf (is_number_char std) s rest a refl) (rw p refl)),
  )

  ident-Pushes :
      (name rest : Text)
      → std.is_alphanumeric 32 ≡ false
      → CanSpell std print (ident name)
      → Pushes (ident name) rest
  unfolding Pushes CanSpell word_round
  ident-Pushes name rest space (c, s, e, l, a, p) = (
    c,
    s ++ 32 ∷ rest,
    ap (λ t. t ++ 32 ∷ rest) e,
    round-word std c (s ++ 32 ∷ rest) (ground arith)
        ∙ rw (starts_number-letter std c (s ++ 32 ∷ rest) l) (
            rw (a, span-AllOf (is_ident_char std) s rest p (rw space refl))
              (ap (λ n. push (ident n) (32 ∷ rest)) (sym e))),
  )

  ref-Pushes :
      (name rest : Text)
      → std.is_alphanumeric 32 ≡ false
      → CanSpell std print (ref name)
      → Pushes (ref name) rest
  unfolding Pushes CanSpell round other_round ref_round
  ref-Pushes name rest space (n, p) = (
    b'$',
    name ++ 32 ∷ rest,
    refl,
    rw (span-AllOf (is_ident_char std) name rest p (rw space refl)) (rw n refl),
  )

  str-Pushes : (s rest : Text) → Pushes (Tok.str s) rest
  unfolding Pushes round other_round string_round
  str-Pushes s rest = (
    34,
    escape s ++ 34 ∷ 32 ∷ rest,
    ap (λ t. 34 ∷ t) (append_assoc (escape s) (34 ∷ []) (32 ∷ rest)),
    rw (string_body-escape s (32 ∷ rest)) refl,
  )

  token-Pushes :
      (t : Tok F) (rest : Text)
      → std.is_alphanumeric 32 ≡ false
      → CanSpell std print t
      → Pushes t rest
  unfolding Pushes CanSpell round other_round long_round
  token-Pushes (num x) rest h k = num-Pushes x rest k
  token-Pushes (ident s) rest h k = ident-Pushes s rest h k
  token-Pushes (ref s) rest h k = ref-Pushes s rest h k
  token-Pushes (Tok.str s) rest h k = str-Pushes s rest
  token-Pushes plus rest h k = (b'+', 32 ∷ rest, refl, refl)
  token-Pushes minus rest h k = (b'-', 32 ∷ rest, refl, refl)
  token-Pushes star rest h k = (b'*', 32 ∷ rest, refl, refl)
  token-Pushes slash rest h k = (b'/', 32 ∷ rest, refl, refl)
  token-Pushes eq rest h k = (b'=', b'=' ∷ 32 ∷ rest, refl, refl)
  token-Pushes ne rest h k = (b'!', b'=' ∷ 32 ∷ rest, refl, refl)
  token-Pushes gt rest h k = (b'>', 32 ∷ rest, refl, refl)
  token-Pushes ge rest h k = (b'>', b'=' ∷ 32 ∷ rest, refl, refl)
  token-Pushes lt rest h k = (b'<', 32 ∷ rest, refl, refl)
  token-Pushes le rest h k = (b'<', b'=' ∷ 32 ∷ rest, refl, refl)
  token-Pushes and_and rest h k = (b'&', b'&' ∷ 32 ∷ rest, refl, refl)
  token-Pushes or_or rest h k = (b'|', b'|' ∷ 32 ∷ rest, refl, refl)
  token-Pushes bang rest h k = (b'!', 32 ∷ rest, refl, refl)
  token-Pushes l_paren rest h k = (b'(', 32 ∷ rest, refl, refl)
  token-Pushes r_paren rest h k = (b')', 32 ∷ rest, refl, refl)
  token-Pushes l_bracket rest h k = (b'[', 32 ∷ rest, refl, refl)
  token-Pushes r_bracket rest h k = (b']', 32 ∷ rest, refl, refl)
  token-Pushes dot rest h k = (b'.', 32 ∷ rest, refl, refl)
  token-Pushes comma rest h k = (b',', 32 ∷ rest, refl, refl)
  token-Pushes question rest h k = (b'?', 32 ∷ rest, refl, refl)
  token-Pushes colon rest h k = (b':', 32 ∷ rest, refl, refl)

  -- a round that pushes, and the round on the space
  push_step :
      (f : ℕ) (t : Tok F) (c : ℕ) (s rest : Text) (ts : List (Tok F))
      → round std c s ≡ push t (32 ∷ rest)
      → length s < f
      → ((g : ℕ) → length rest < g → tokens std g rest ≡ ok ts)
      → tokens std (suc f) (c ∷ s) ≡ ok (t ∷ ts)
  unfolding tokens round Leaves
  push_step zero t c s rest ts r l h = absurd (omega arith)
  push_step (suc f) t c s rest ts r l h =
      let shorter = rw r at (round-Leaves std c s) in rw (r, tokens) (rw (h f (omega arith)) refl)

  -- Where a space is not part of a name: the tokenizer reads back the tokens that were spelled.
  pub tokens-spelled :
      (f : ℕ) (ts : List (Tok F))
      → std.is_alphanumeric 32 ≡ false
      → All (CanSpell std print) ts
      → length (spelled std print ts) < f
      → tokens std f (spelled std print ts) ≡ ok ts
  unfolding tokens spelled Pushes
  tokens-spelled zero ts h a l = absurd (omega arith)
  tokens-spelled (suc f) [] h a l = refl
  tokens-spelled (suc f) (t ∷ ts) h (k, a) l =
      let (c, s, e, r) = token-Pushes t (spelled std print ts) h k in
      let room = rw e at l in
      ap (tokens std (suc f)) e
      ∙ push_step f t c s (spelled std print ts) ts r (omega arith)
          (λ g m. tokens-spelled g ts h a m)

  pub tokenize-spelled :
      (ts : List (Tok F))
      → std.is_alphanumeric 32 ≡ false
      → All (CanSpell std print) ts
      → tokenize std (spelled std print ts) ≡ ok ts
  unfolding tokenize
  tokenize-spelled ts h a = tokens-spelled (length (spelled std print ts) + 1) ts h a (omega arith)
