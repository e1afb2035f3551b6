-- ===== src/Workflow/Expression/Spelling.antt =====
-- Tokens as texts, each with a space after it.
use ferris_cms.Prelude.{
  ℕ, ◌≡◌, true, false, ◌||◌, some, List, [], ◌∷◌, ◌++◌, is_empty, Text, lit, ◌==◌, if◌then◌else◌,
}
use ferris_cms.Workflow.Expression.{Std}
use ferris_cms.Workflow.Expression.Tokens.{
  Tok, num, ident, ref, plus, minus, star, slash, eq, ne, gt, ge, lt, le, and_and, or_or, bang,
  l_paren, r_paren, l_bracket, r_bracket, dot, comma, question, colon, is_digit, is_ident_char,
  is_number_char,
}
use ferris_cms.Workflow.Expression.Words.{is_letter, AllOf}

-- a text between double quotes: a backslash stands before each of them, and before a backslash
unfoldable pub escape : Text → Text
escape [] = []
escape (c ∷ s) = if c == 34 || c == 92 then 92 ∷ c ∷ escape s else c ∷ escape s

module _ {N F : Type 0} (std : Std N F) (print : F → Text) where
  abbrev pub spell : Tok F → Text
  spell (num x) = print x
  spell (Tok.str s) = 34 ∷ (escape s ++ 34 ∷ [])
  spell (ident s) = s
  spell (ref s) = b'$' ∷ s
  spell plus = lit "+"
  spell minus = lit "-"
  spell star = lit "*"
  spell slash = lit "/"
  spell eq = lit "=="
  spell ne = lit "!="
  spell gt = lit ">"
  spell ge = lit ">="
  spell lt = lit "<"
  spell le = lit "<="
  spell and_and = lit "&&"
  spell or_or = lit "||"
  spell bang = lit "!"
  spell l_paren = lit "("
  spell r_paren = lit ")"
  spell l_bracket = lit "["
  spell r_bracket = lit "]"
  spell dot = lit "."
  spell comma = lit ","
  spell question = lit "?"
  spell colon = lit ":"

  unfoldable pub spelled : List (Tok F) → Text
  unfolding escape
  spelled [] = []
  spelled (t ∷ ts) = spell t ++ 32 ∷ spelled ts

  -- A numeral begins with a digit and is read back; a name begins with a letter.
  unfoldable pub CanSpell : Tok F → Type 0
  unfolding AllOf
  CanSpell (num x) =
      (c : ℕ) × (s : Text) × (print x ≡ c ∷ s)
      × (is_digit c ≡ true)
      × AllOf (is_number_char std) s
      × (std.parse_f64 (c ∷ s) ≡ some x)
  CanSpell (ident name) =
      (c : ℕ) × (s : Text) × (name ≡ c ∷ s)
      × (is_letter c ≡ true)
      × ((std.is_alphabetic c || c == b'_') ≡ true)
      × AllOf (is_ident_char std) s
  CanSpell (ref name) = (is_empty name ≡ false) × AllOf (is_ident_char std) name
  CanSpell _ = Unit
