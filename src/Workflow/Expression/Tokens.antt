-- ===== src/Workflow/Expression/Tokens.antt =====
-- The tokenizer. A position is the text that is left.
use ferris_cms.Prelude.{
  ℕ, zero, suc, ◌+◌, Bool, false, ◌&&◌, ◌||◌, Option, none, some, List, [], ◌∷◌, is_empty, length,
  Text, ◌==◌, leb, if◌then◌else◌,
}
use ferris_cms.Workflow.Expression.{Std, Result, ok, err, out_of_fuel, ◌>>=◌}

pub data Tok (F : Type 0) : Type 0 where
  num : F → Tok F
  str ident ref : Text → Tok F
  plus minus star slash eq ne gt ge lt le and_and or_or bang l_paren r_paren l_bracket r_bracket dot
        comma question colon :
      Tok F

-- What a round of the loop does: it skips, pushes a token, or fails.
pub data Round (F : Type 0) : Type 0 where
  skip : Text → Round F
  push : Tok F → Text → Round F
  fail : Round F

abbrev pub is_digit : ℕ → Bool
is_digit c = leb b'0' c && leb c b'9'

-- the characters that pass a test, and the rest
unfoldable pub span : (ℕ → Bool) → Text → Text × Text
span p [] = ([], [])
span p (c ∷ s) = let (run, rest) = span p s in if p c then (c ∷ run, rest) else ([], c ∷ s)

abbrev pub escaped : ℕ → ℕ
escaped c = if c == b'n' then 10 else if c == b't' then 9 else if c == b'r' then 13 else c

abbrev pub prepend : ℕ → Option (Text × Text) → Option (Text × Text)
prepend c none = none
prepend c (some (s, rest)) = some (c ∷ s, rest)

-- a string literal after its opening quote, and what follows the closing one
unfoldable pub string_body : ℕ → Text → Option (Text × Text)
string_body quote [] = none
string_body quote (c ∷ []) = if c == quote then some ([], []) else none
string_body quote (c ∷ (d ∷ s)) =
    let after_escape = prepend (escaped d) (string_body quote s) in
    let plain = prepend c (string_body quote (d ∷ s)) in
    if c == quote then some ([], d ∷ s) else if c == 92 then after_escape else plain

-- the next character is `d`
abbrev pub follows : ℕ → Text → Bool
follows d [] = false
follows d (c ∷ s) = c == d

abbrev pub drop_one : Text → Text
drop_one [] = []
drop_one (c ∷ s) = s

module _ {N F : Type 0} (std : Std N F) where
  abbrev pub is_ident_char : ℕ → Bool
  is_ident_char c = std.is_alphanumeric c || c == b'_' || c == b'-'

  abbrev pub is_number_char : ℕ → Bool
  is_number_char c = is_digit c || c == b'.' || c == b'e' || c == b'E'

  abbrev pub starts_number : ℕ → Text → Bool
  starts_number c [] = is_digit c
  starts_number c (d ∷ s) = is_digit c || (c == b'-' && is_digit d)

  unfoldable pub number_round : Option F → Text → Round F
  number_round none rest = fail
  number_round (some n) rest = push (num n) rest

  unfoldable pub string_round : Option (Text × Text) → Round F
  string_round none = fail
  string_round (some (s, rest)) = push (str s) rest

  unfoldable pub ref_round : Text × Text → Round F
  ref_round (name, rest) = if is_empty name then fail else push (ref name) rest

  -- numbers and identifiers
  unfoldable pub word_round : ℕ → Text → Round F
  unfolding span number_round
  word_round c s =
      if starts_number c s
      then number_round (std.parse_f64 (c ∷ (span is_number_char s).0)) (span is_number_char s).1
      else if std.is_alphabetic c || c == b'_'
      then push (ident (c ∷ (span is_ident_char s).0)) (span is_ident_char s).1
      else fail

  -- the tokens that one more character makes longer
  unfoldable pub long_round : ℕ → Text → Round F
  unfolding word_round
  long_round c s =
      if c == b'&' && follows b'&' s
      then push and_and (drop_one s)
      else if c == b'|' && follows b'|' s
      then push or_or (drop_one s)
      else if c == b'=' && follows b'=' s
      then push eq (drop_one s)
      else if c == b'!' && follows b'=' s
      then push ne (drop_one s)
      else if c == b'!'
      then push bang s
      else if c == b'>' && follows b'=' s
      then push ge (drop_one s)
      else if c == b'>'
      then push gt s
      else if c == b'<' && follows b'=' s
      then push le (drop_one s)
      else if c == b'<'
      then push lt s
      else word_round c s

  abbrev pub punctuation : ℕ → Option (Tok F)
  punctuation c =
      if c == b'('
      then some l_paren
      else if c == b')'
      then some r_paren
      else if c == b'['
      then some l_bracket
      else if c == b']'
      then some r_bracket
      else if c == b'.'
      then some dot
      else if c == b','
      then some comma
      else if c == b':'
      then some colon
      else if c == b'?'
      then some question
      else if c == b'+'
      then some plus
      else if c == b'-'
      then some minus
      else if c == b'*'
      then some star
      else if c == b'/'
      then some slash
      else none

  unfoldable pub other_round : Option (Tok F) → ℕ → Text → Round F
  unfolding long_round ref_round string_round span string_body
  other_round (some t) c s = push t s
  other_round none c s =
      if c == b'$'
      then ref_round (span is_ident_char s)
      else if c == 34 || c == 39
      then string_round (string_body c s)
      else long_round c s

  -- the `match` on the character
  unfoldable pub round : ℕ → Text → Round F
  unfolding other_round
  round c s =
      if c == 32 || c == 9 || c == 10 || c == 13 then skip s else other_round (punctuation c) c s

  abbrev push_all : Tok F → Result (List (Tok F)) → Result (List (Tok F))
  push_all t r = r >>= λ ts. ok (t ∷ ts)

  -- the loop, on one unit of fuel for each round
  unfoldable pub tokens : ℕ → Text → Result (List (Tok F))
  unfolding round
  tokens zero s = out_of_fuel
  tokens (suc f) [] = ok []
  tokens (suc f) (c ∷ s) = elim (round c s) [
    | skip rest ↦ tokens f rest
    | push t rest ↦ push_all t (tokens f rest)
    | fail ↦ err
  ]

  unfoldable pub tokenize : Text → Result (List (Tok F))
  unfolding tokens
  tokenize s = tokens (length s + 1) s
