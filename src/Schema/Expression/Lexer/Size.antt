-- ===== src/Schema/Expression/Lexer/Size.antt =====
-- A token takes at least one byte.
use ferris_cms.Prelude.{
  ℕ, suc, ◌≤◌, ◌<◌, ◌≡◌, refl, ap, inl, inr, Bool, true, Option, some, [], ◌∷◌, ◌++◌, length, Text,
  ◌==◌, arith, Bool-cases, Option-cases,
}
use ferris_cms.Domain.Naming.{is_ascii_digit}
use ferris_cms.Schema.Expression.Lexer.{
  Operator, Lexed, token, end_of_input, error, skip_ws, starts_ident, in_ident, span, string_loop,
  push_char, number_token, number_after, number_start, operator_two, operator_one, symbol, lex,
  next_token,
}

-- After a token less than `n` bytes are left, and after an error at most `n`.
abbrev pub Leaves : {N : Type 0} → ℕ → Lexed N → Type 0
Leaves n (token t rest) = length rest < n
Leaves n end_of_input = Unit
Leaves n (error e rest) = length rest ≤ n

pub Leaves-mono : {N : Type 0} (m n : ℕ) (l : Lexed N) → Leaves m l → m ≤ n → Leaves n l
Leaves-mono m n (token t rest) h k = omega arith
Leaves-mono m n end_of_input h k = tt
Leaves-mono m n (error e rest) h k = omega arith

length-skip_ws : (s : Text) → length (skip_ws s) ≤ length s
unfolding skip_ws
length-skip_ws [] = omega arith
length-skip_ws (c ∷ s) = ground (arith, length-skip_ws s)

length-span : (p : ℕ → Bool) (s : Text) → length (span p s).1 ≤ length s
unfolding span
length-span p [] = omega arith
length-span p (c ∷ s) = ground (arith, length-span p s)

span-cons : (p : ℕ → Bool) (c : ℕ) (s : Text) → p c ≡ true → (span p (c ∷ s)).1 ≡ (span p s).1
unfolding span
span-cons p c s h = rw h refl

operator_two-le :
    (c : ℕ) (rest after : Text) (o : Operator)
    → operator_two c rest ≡ some (o, after)
    → length after ≤ length rest
unfolding operator_two
operator_two-le c [] after o h = cc
operator_two-le c (d ∷ rest) after o h = ground arith

module _ (N : Type 0) where
  string_loop-Leaves : (acc s : Text) → Leaves {N = N} (suc (length s)) (string_loop acc s)
  unfolding string_loop
  string_loop-Leaves acc [] = omega arith
  string_loop-Leaves acc (c ∷ []) = elim (Bool-cases (c == 39)) [
    | inl e ↦ rw e (omega arith)
    | inr e ↦ rw e (omega arith)
  ]
  string_loop-Leaves acc (c ∷ (d ∷ rest)) = elim (Bool-cases (c == 39)) [
    | inl e ↦ elim (Bool-cases (d == 39)) [
      | inl e' ↦
          rw (e, e')
            (Leaves-mono _ _ (string_loop (acc ++ 39 ∷ []) rest)
              (string_loop-Leaves (acc ++ 39 ∷ []) rest) (omega arith))
      | inr e' ↦ rw (e, e') (omega arith)
    ]
    | inr e ↦ rw e (
        Leaves-mono _ _ (string_loop (acc ++ push_char c) (d ∷ rest))
          (string_loop-Leaves (acc ++ push_char c) (d ∷ rest)) (omega arith))
  ]

  number_token-Leaves :
      (parse_f64 : Text → Option N) (digits rest : Text) (n : ℕ)
      → length rest < n
      → Leaves n (number_token parse_f64 digits rest)
  number_token-Leaves parse_f64 digits rest n h = ground arith

  number_after-Leaves :
      (parse_f64 : Text → Option N) (digits rest : Text) (n : ℕ)
      → length rest < n
      → Leaves n (number_after parse_f64 digits rest)
  number_after-Leaves parse_f64 digits [] n h = number_token-Leaves parse_f64 digits [] n h
  number_after-Leaves parse_f64 digits (c ∷ rest) n h = elim (Bool-cases (c == b'.')) [
    | inl e ↦ rw e (
        number_token-Leaves parse_f64 _ (span is_ascii_digit rest).1 n
          (omega (arith, length-span is_ascii_digit rest)))
    | inr e ↦ rw e (number_token-Leaves parse_f64 digits (c ∷ rest) n h)
  ]

  symbol-Leaves : (c : ℕ) (rest : Text) → Leaves {N = N} (suc (length rest)) (symbol c rest)
  unfolding symbol
  symbol-Leaves c rest = elim (Option-cases (operator_two c rest)) [
    | inl e ↦ elim (Option-cases (operator_one c)) [
      | inl e' ↦ ground arith
      | inr (o, e') ↦ ground arith
    ]
    | inr ((o, after), e) ↦ ground (arith, operator_two-le c rest after o e)
  ]

  number_start-Leaves :
      (parse_f64 : Text → Option N) (c : ℕ) (rest : Text)
      → is_ascii_digit c ≡ true
      → Leaves (suc (length rest)) (number_start parse_f64 (c ∷ rest))
  unfolding number_start
  number_start-Leaves parse_f64 c rest e =
      number_after-Leaves parse_f64 _ (span is_ascii_digit (c ∷ rest)).1 _ (
        omega
          (arith, ap length (span-cons is_ascii_digit c rest e), length-span is_ascii_digit rest))

  lex-Leaves : (parse_f64 : Text → Option N) (s : Text) → Leaves (length s) (lex parse_f64 s)
  unfolding lex
  lex-Leaves parse_f64 [] = tt
  lex-Leaves parse_f64 (c ∷ rest) = elim (Bool-cases (starts_ident c)) [
    | inl e ↦ rw e (
        omega
          (arith, ap length (span-cons in_ident c rest (ground arith)), length-span in_ident rest))
    | inr e ↦ elim (Bool-cases (is_ascii_digit c)) [
      | inl e' ↦ rw (e, e') (number_start-Leaves parse_f64 c rest e')
      | inr e' ↦ elim (Bool-cases (c == 39)) [
        | inl q ↦ rw (e, e', q) (string_loop-Leaves [] rest)
        | inr q ↦ rw (e, e', q) (symbol-Leaves c rest)
      ]
    ]
  ]

  pub next_token-Leaves :
      (parse_f64 : Text → Option N) (s : Text) → Leaves (length s) (next_token parse_f64 s)
  unfolding next_token
  next_token-Leaves parse_f64 s =
      Leaves-mono _ _ (lex parse_f64 (skip_ws s)) (lex-Leaves parse_f64 (skip_ws s))
        (length-skip_ws s)
