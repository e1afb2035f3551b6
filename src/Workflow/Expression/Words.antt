-- ===== src/Workflow/Expression/Words.antt =====
-- What the tokenizer does at the beginning of a numeral or a name, and at runs of characters.
use ferris_cms.Prelude.{
  ℕ, ◌≡◌, refl, ap, Bool, true, false, ◌&&◌, ◌||◌, none, [], ◌∷◌, ◌++◌, Text, ◌==◌, Bool-cases, inl,
  inr, leb, All, arith,
}
use ferris_cms.Workflow.Expression.{Std}
use ferris_cms.Workflow.Expression.Tokens.{
  is_digit, span, starts_number, word_round, long_round, punctuation, other_round, round,
}

abbrev pub is_letter : ℕ → Bool
is_letter c = (leb b'A' c && leb c b'Z') || (leb b'a' c && leb c b'z') || c == b'_'

-- what a numeral or a name can begin with
abbrev pub is_word : ℕ → Bool
is_word c = is_digit c || is_letter c

is_word-ne : (c k : ℕ) → is_word c ≡ true → is_word k ≡ false → c == k ≡ false
is_word-ne c k h w = elim (Bool-cases (c == k)) [
  | inl e ↦ let same : c ≡ k = ground arith in absurd (cc (ap is_word same, h, w))
  | inr e ↦ e
]

unfoldable pub AllOf : (ℕ → Bool) → Text → Type 0
AllOf p s = All (λ c. p c ≡ true) s

pub span-AllOf :
    (p : ℕ → Bool) (s rest : Text)
    → AllOf p s
    → p 32 ≡ false
    → span p (s ++ 32 ∷ rest) ≡ (s, 32 ∷ rest)
unfolding span AllOf
span-AllOf p [] rest h k = rw k refl
span-AllOf p (c ∷ s) rest (h, hs) k = rw (h, span) (rw (span-AllOf p s rest hs k) refl)

module _ {N F : Type 0} (std : Std N F) where
  punctuation-word : (c : ℕ) → is_word c ≡ true → punctuation std c ≡ none
  punctuation-word c h =
      let other = λ (k : ℕ) (w : is_word k ≡ false). is_word-ne c k h w in
      rw
        (
          other b'(' refl,
          other b')' refl,
          other b'[' refl,
          other b']' refl,
          other b'.' refl,
          other b',' refl,
          other b':' refl,
          other b'?' refl,
          other b'+' refl,
          other b'-' refl,
          other b'*' refl,
          other b'/' refl,
        )
        refl

  long_round-word : (c : ℕ) (s : Text) → is_word c ≡ true → long_round std c s ≡ word_round std c s
  unfolding long_round
  long_round-word c s h =
      let other = λ (k : ℕ) (w : is_word k ≡ false). is_word-ne c k h w in
      rw
        (
          other b'&' refl,
          other b'|' refl,
          other b'=' refl,
          other b'!' refl,
          other b'>' refl,
          other b'<' refl,
        )
        refl

  pub round-word : (c : ℕ) (s : Text) → is_word c ≡ true → round std c s ≡ word_round std c s
  unfolding round other_round
  round-word c s h =
      let other = λ (k : ℕ) (w : is_word k ≡ false). is_word-ne c k h w in
      rw
        (
          other 32 refl,
          other 9 refl,
          other 10 refl,
          other 13 refl,
          punctuation-word c h,
          other b'$' refl,
          other 34 refl,
          other 39 refl,
        )
        (long_round-word c s h)

  pub starts_number-digit : (c : ℕ) (t : Text) → is_digit c ≡ true → starts_number std c t ≡ true
  starts_number-digit c [] h = h
  starts_number-digit c (d ∷ t) h = rw h refl

  pub starts_number-letter : (c : ℕ) (t : Text) → is_letter c ≡ true → starts_number std c t ≡ false
  starts_number-letter c [] h = ground arith
  starts_number-letter c (d ∷ t) h = ground arith
