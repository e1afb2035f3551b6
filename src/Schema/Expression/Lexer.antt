-- ===== src/Schema/Expression/Lexer.antt =====
-- The tokens of expression.rs. A position is the text that is left; `parse_f64` is
-- `str::parse::<f64>`. An error keeps its kind, and not its message and position.
pub mod Size
use ferris_cms.Prelude.{
  ℕ, ◌+◌, Bool, true, false, ◌&&◌, ◌||◌, Option, none, some, List, [], ◌∷◌, ◌++◌, Text, ◌==◌, ltb,
  if◌then◌else◌,
}
use Prim.Native.Nat.{◌/◌, ◌%◌}
use ferris_cms.Domain.Naming.{is_ascii_uppercase, is_ascii_lowercase, is_ascii_digit}

pub data Operator : Type 0 where
  concat diamond bang_eq le ge plus minus star slash percent equals less greater : Operator

pub data Token (N : Type 0) : Type 0 where
  ident : Text → Token N
  number : N → Token N
  str : Text → Token N
  op : Operator → Token N
  l_paren r_paren comma dot : Token N

pub data ParseError : Type 0 where
  invalid_number unterminated_string : ParseError
  unexpected_character : ℕ → ParseError
  unexpected_end unexpected_trailing expected_r_paren expected_r_paren_after_arguments
        expected_relation_field unexpected_token :
      ParseError

-- what `next_token` returns, with the text that is left after it
pub data Lexed (N : Type 0) : Type 0 where
  token : Token N → Text → Lexed N
  end_of_input : Lexed N
  error : ParseError → Text → Lexed N

abbrev pub is_ascii_whitespace : ℕ → Bool
is_ascii_whitespace c = c == 32 || c == 9 || c == 10 || c == 12 || c == 13

unfoldable pub skip_ws : Text → Text
skip_ws [] = []
skip_ws (c ∷ s) = let rest = skip_ws s in if is_ascii_whitespace c then rest else c ∷ s

abbrev pub starts_ident : ℕ → Bool
starts_ident c = is_ascii_uppercase c || is_ascii_lowercase c || c == b'_'

abbrev pub in_ident : ℕ → Bool
in_ident c = starts_ident c || is_ascii_digit c

-- the longest prefix whose bytes pass a test, and what is left
unfoldable pub span : (ℕ → Bool) → Text → Text × Text
span p [] = ([], [])
span p (c ∷ s) = let (word, rest) = span p s in if p c then (c ∷ word, rest) else ([], c ∷ s)

-- `String::push` of a byte that is read as a character: from 128 on it is two bytes of UTF-8
abbrev pub push_char : ℕ → Text
push_char c = if ltb c 128 then c ∷ [] else (192 + c / 64) ∷ (128 + c % 64) ∷ []

module _ {N : Type 0} where
  -- after the opening quote
  unfoldable pub string_loop : Text → Text → Lexed N
  string_loop s [] = error unterminated_string []
  string_loop s (c ∷ []) = if c == 39 then token (str s) [] else error unterminated_string []
  string_loop s (c ∷ (d ∷ rest)) =
      let escaped = string_loop (s ++ 39 ∷ []) rest in
      let longer = string_loop (s ++ push_char c) (d ∷ rest) in
      if c == 39 then if d == 39 then escaped else token (str s) (d ∷ rest) else longer

  abbrev number_token : (Text → Option N) → Text → Text → Lexed N
  number_token parse_f64 digits rest = elim (parse_f64 digits) [
    | some n ↦ token (number n) rest
    | none ↦ error invalid_number rest
  ]

  abbrev number_after : (Text → Option N) → Text → Text → Lexed N
  number_after parse_f64 digits [] = number_token parse_f64 digits []
  number_after parse_f64 digits (c ∷ rest) =
      let (fraction, after) = span is_ascii_digit rest in
      if c == b'.'
      then number_token parse_f64 (digits ++ (b'.' ∷ fraction)) after
      else number_token parse_f64 digits (c ∷ rest)

  unfoldable pub number_start : (Text → Option N) → Text → Lexed N
  number_start parse_f64 s =
      let (digits, rest) = span is_ascii_digit s in number_after parse_f64 digits rest

-- the operators of two bytes
unfoldable pub operator_two : ℕ → Text → Option (Operator × Text)
operator_two c [] = none
operator_two c (d ∷ rest) =
    if c == b'|' && d == b'|'
    then some (concat, rest)
    else if c == b'<' && d == b'>'
    then some (diamond, rest)
    else if c == b'!' && d == b'='
    then some (bang_eq, rest)
    else if c == b'<' && d == b'='
    then some (le, rest)
    else if c == b'>' && d == b'='
    then some (ge, rest)
    else none

unfoldable pub operator_one : ℕ → Option Operator
operator_one c =
    if c == b'+'
    then some plus
    else if c == b'-'
    then some minus
    else if c == b'*'
    then some star
    else if c == b'/'
    then some slash
    else if c == b'%'
    then some percent
    else if c == b'='
    then some equals
    else if c == b'<'
    then some less
    else if c == b'>'
    then some greater
    else none

module _ {N : Type 0} where
  unfoldable pub punctuation : ℕ → Option (Token N)
  punctuation c =
      if c == b'('
      then some l_paren
      else if c == b')'
      then some r_paren
      else if c == b','
      then some comma
      else if c == b'.'
      then some dot
      else none

  -- operators and punctuation
  unfoldable pub symbol : ℕ → Text → Lexed N
  unfolding operator_two operator_one punctuation
  symbol c rest = elim (operator_two c rest) [
    | some (o, after) ↦ token (op o) after
    | none ↦ elim (operator_one c) [
      | some o ↦ token (op o) rest
      | none ↦ elim (punctuation c) [
        | some t ↦ token t rest
        | none ↦ error (unexpected_character c) (c ∷ rest)
      ]
    ]
  ]

  -- a token at a byte that is no white space
  unfoldable pub lex : (Text → Option N) → Text → Lexed N
  lex parse_f64 [] = end_of_input
  lex parse_f64 (c ∷ rest) =
      if starts_ident c
      then (let (word, after) = span in_ident (c ∷ rest) in token (ident word) after)
      else if is_ascii_digit c
      then number_start parse_f64 (c ∷ rest)
      else if c == 39
      then string_loop [] rest
      else symbol c rest

  unfoldable pub next_token : (Text → Option N) → Text → Lexed N
  unfolding lex skip_ws string_loop number_start symbol span
  next_token parse_f64 s = lex parse_f64 (skip_ws s)
