-- ===== src/Schema/Expression/Parser/Rounds.antt =====
-- What a step of the parser consumes: a token that it takes makes the rest shorter, and no step
-- gives bytes back.
use ferris_cms.Prelude.{ℕ, ◌+◌, ◌≤◌, ◌<◌, Option, none, some, length, Text, arith}
use ferris_cms.Schema.Expression.Ast.{BinOp, relation_column, Expr, Exprs, binary, nil}
use ferris_cms.Schema.Expression.Lexer.{
  expected_relation_field, Token, op, ident, l_paren, r_paren, comma, dot, minus, plus, ParseError,
  Lexed, token, end_of_input, error, next_token,
}
use ferris_cms.Schema.Expression.Lexer.Size.{Leaves, Leaves-mono, next_token-Leaves}
use ferris_cms.Schema.Expression.Parser.{
  Parsed, ok, err, consumed, out_of_fuel, ◌>>=◌, Parser, peek, bump, looked, close, field_name,
  keyword, Run, binary_round, unary_match, primary_match, name_match, args_match, comma_match,
}

-- A run that ends, with a result for which `P` holds or with an error of the source.
abbrev pub Ensures {ℓ} : {A : Type ℓ} → (A → Type 0) → Parsed A → Type 0
Ensures P (ok a) = P a
Ensures P (err e) = Unit
Ensures P out_of_fuel = ⊥

module _ {A B : Type 0} (P : A → Type 0) (Q : B → Type 0) where
  pub Ensures-bind :
      (m : Parsed A) (k : A → Parsed B)
      → Ensures P m
      → ((a : A) → P a → Ensures Q (k a))
      → Ensures Q (m >>= k)
  Ensures-bind (ok a) k h g = g a h
  Ensures-bind (err e) k h g = tt
  Ensures-bind out_of_fuel k h g = absurd h

module _ {A : Type 0} (P Q : A → Type 0) where
  pub Ensures-mono : (m : Parsed A) → Ensures P m → ((a : A) → P a → Q a) → Ensures Q m
  Ensures-mono (ok a) h g = g a h
  Ensures-mono (err e) h g = tt
  Ensures-mono out_of_fuel h g = absurd h

abbrev pub weight {ℓ} : {A : Type ℓ} → Option A → ℕ
weight none = 0
weight (some _) = 1

-- the bytes that are left, and one for a token that has been read ahead
abbrev pub size : {N : Type 0} → Parser N → ℕ
size p = length p.text + weight p.lookahead

abbrev pub AtMost : {A N : Type 0} → ℕ → A × Parser N → Type 0
AtMost n r = size r.1 ≤ n

abbrev pub Below : {A N : Type 0} → ℕ → A × Parser N → Type 0
Below n r = size r.1 < n

module _ {N : Type 0} (parse_f64 : Text → Option N) where
  size-looked :
      (l : Lexed N) (s : Text) → Leaves (length s) l → size (looked parse_f64 l s).1 ≤ length s
  size-looked (token t rest) s h = omega arith
  size-looked end_of_input s h = omega arith
  size-looked (error e rest) s h = omega arith

  size-peek-at :
      (s : Text) (t : Option (Token N))
      → size (peek parse_f64 (record { text = s; lookahead = t })).1 ≤ length s + weight t
  unfolding peek
  size-peek-at s none =
      omega (arith, size-looked (next_token parse_f64 s) s (next_token-Leaves N parse_f64 s))
  size-peek-at s (some t) = omega arith

  pub size-peek : (p : Parser N) → size (peek parse_f64 p).1 ≤ size p
  size-peek p = size-peek-at p.text p.lookahead

  consumed-looked :
      (l : Lexed N) (s : Text) (n : ℕ)
      → Leaves n l
      → Ensures (Below n) (consumed parse_f64 (looked parse_f64 l s).0 (looked parse_f64 l s).1)
  consumed-looked (token t rest) s n h = omega arith
  consumed-looked end_of_input s n h = tt
  consumed-looked (error e rest) s n h = tt

  bump-Below-at :
      (s : Text) (t : Option (Token N)) (n : ℕ)
      → length s + weight t ≤ n
      → Ensures (Below n) (bump parse_f64 (record { text = s; lookahead = t }))
  unfolding bump peek
  bump-Below-at s none n h =
      consumed-looked (next_token parse_f64 s) s n
        (Leaves-mono _ _ (next_token parse_f64 s) (next_token-Leaves N parse_f64 s) (omega arith))
  bump-Below-at s (some t) n h = omega arith

  bump-Below : (p : Parser N) (n : ℕ) → size p ≤ n → Ensures (Below n) (bump parse_f64 p)
  bump-Below p n h = bump-Below-at p.text p.lookahead n h

  -- a run that gives up no byte, on parsers of less than `n`
  abbrev pub Small : {A : Type 0} → ℕ → (Parser N → Parsed (A × Parser N)) → Type 0
  Small n r = (p : Parser N) → size p < n → Ensures (AtMost (size p)) (r p)

  Small_lem :
      {A : Type 0} (n : ℕ) (r : Parser N → Parsed (A × Parser N)) (p : Parser N)
      → Small n r
      → size p < n
      → Ensures (AtMost n) (r p)
  Small_lem n r p h k =
      Ensures-mono (AtMost (size p)) (AtMost n) (r p) (h p k) (λ (a, q) l. omega arith)

  module _ (n : ℕ) where
    pub bump-bind :
        {B : Type 0} (Q : B → Type 0) (p : Parser N) (k : Token N × Parser N → Parsed B)
        → size p ≤ n
        → ((t : Token N) (q : Parser N) → size q < n → Ensures Q (k (t, q)))
        → Ensures Q (bump parse_f64 p >>= k)
    bump-bind Q p k h g =
        Ensures-bind (Below n) Q (bump parse_f64 p) k (bump-Below p n h) (λ (t, q) b. g t q b)

    pub Small-bind :
        {A B : Type 0} (Q : B → Type 0) (r : Parser N → Parsed (A × Parser N)) (p : Parser N)
        (k : A × Parser N → Parsed B)
        → Small n r
        → size p < n
        → ((a : A) (q : Parser N) → size q < n → Ensures Q (k (a, q)))
        → Ensures Q (r p >>= k)
    Small-bind Q r p k h l g =
        Ensures-bind (AtMost (size p)) Q (r p) k (h p l) (λ (a, q) b. g a q (omega arith))

    pub binary_round-fits :
        (next : Run parse_f64) (loop : Expr N → Run parse_f64) (left : Expr N) (o : Option BinOp)
        (p : Parser N)
        → Small n next
        → ((e : Expr N) → Small n (loop e))
        → size p ≤ n
        → Ensures (AtMost n) (binary_round parse_f64 next loop left o p)
    unfolding binary_round
    binary_round-fits next loop left none p hn hl h = h
    binary_round-fits next loop left (some o) p hn hl h = bump-bind _ p _ h λ t q b.
        Small-bind _ next q _ hn b λ r q1 b1. Small_lem n (loop (binary o left r)) q1 (hl _) b1

    pub unary_match-fits :
        (operand primary : Run parse_f64) (t : Option (Token N)) (p : Parser N)
        → Small n operand
        → Ensures (AtMost n) (primary p)
        → size p ≤ n
        → Ensures (AtMost n) (unary_match parse_f64 operand primary t p)
    unfolding unary_match
    unary_match-fits operand primary (some (op minus)) p ho hp h =
        bump-bind _ p _ h λ t q b. Small-bind _ operand q _ ho b λ e q1 b1. omega arith
    unary_match-fits operand primary (some (op plus)) p ho hp h =
        bump-bind _ p _ h λ t q b. Small_lem n operand q ho b
    unary_match-fits operand primary t p ho hp h = hp

    close-bind :
        {B : Type 0} (Q : B → Type 0) (e : ParseError) (p : Parser N) (k : Parser N → Parsed B)
        → size p ≤ n
        → ((q : Parser N) → size q < n → Ensures Q (k q))
        → Ensures Q (close parse_f64 e p >>= k)
    unfolding close
    close-bind Q e p k h g =
        Ensures-bind (λ q. size q < n) Q (close parse_f64 e p) k
          (bump-bind _ p _ h (λ t q b. close-token e t q b)) g
      where
        close-token :
            (e : ParseError) (t : Token N) (q : Parser N)
            → size q < n
            → Ensures (λ q'. size q' < n) (elim t [ r_paren ↦ ok q | _ ↦ err e ])
        close-token e r_paren q b = b
        close-token e t q b = tt

    field_token-fits :
        (name : Text) (t : Token N) (q : Parser N)
        → size q < n
        → Ensures (AtMost {A = Expr N} n) (elim t [
          | ident field ↦ ok (relation_column name field, q)
          | _ ↦ err expected_relation_field
        ])
    field_token-fits name (ident field) q b = omega arith
    field_token-fits name t q b = tt

    field_name-fits :
        (name : Text) (p : Parser N) → size p ≤ n → Ensures (AtMost n) (field_name parse_f64 name p)
    unfolding field_name
    field_name-fits name p h = bump-bind _ p _ h (field_token-fits name)

    pub primary_match-fits :
        (inner : Run parse_f64) (named : Text → Run parse_f64) (t : Token N) (p : Parser N)
        → size p < n
        → ((q : Parser N) → size q < n → Ensures (AtMost (size q)) (inner q))
        → ((name : Text) → Ensures (AtMost n) (named name p))
        → Ensures (AtMost n) (primary_match parse_f64 inner named t p)
    unfolding primary_match
    primary_match-fits inner named (Token.number x) p h hi hn = omega arith
    primary_match-fits inner named (Token.str x) p h hi hn = omega arith
    primary_match-fits inner named l_paren p h hi hn =
        Small-bind _ inner p _ hi h λ e q b. close-bind _ _ q _ (omega arith) λ q1 b1. omega arith
    primary_match-fits inner named (ident name) p h hi hn = keyword-fits (keyword name)
      where
        keyword-fits :
            (k : Option (Expr N))
            → Ensures (AtMost n) (elim k [ some e ↦ ok (e, p) | none ↦ named name p ])
        keyword-fits (some e) = omega arith
        keyword-fits none = hn name
    primary_match-fits inner named t p h hi hn = tt

    pub name_match-fits :
        (args : Parser N → Parsed (Exprs N × Parser N)) (name : Text) (t : Option (Token N))
        (p : Parser N)
        → Small n args
        → size p ≤ n
        → Ensures (AtMost n) (name_match parse_f64 args name t p)
    unfolding name_match
    name_match-fits args name (some l_paren) p ha h = bump-bind _ p _ h λ t q b.
        Small-bind _ args q _ ha b
          λ es q1 b1. close-bind _ _ q1 _ (omega arith) λ q2 b2. omega arith
    name_match-fits args name (some dot) p ha h =
        bump-bind _ p _ h λ t q b. field_name-fits name q (omega arith)
    name_match-fits args name t p ha h = h

    pub args_match-fits :
        (loop : Exprs N → Parser N → Parsed (Exprs N × Parser N)) (t : Option (Token N))
        (p : Parser N)
        → Ensures (AtMost n) (loop nil p)
        → size p ≤ n
        → Ensures (AtMost n) (args_match parse_f64 loop t p)
    unfolding args_match
    args_match-fits loop (some r_paren) p hl h = h
    args_match-fits loop t p hl h = hl

    pub comma_match-fits :
        (loop : Exprs N → Parser N → Parsed (Exprs N × Parser N)) (args : Exprs N)
        (t : Option (Token N)) (p : Parser N)
        → ((es : Exprs N) → Small n (loop es))
        → size p ≤ n
        → Ensures (AtMost n) (comma_match parse_f64 loop args t p)
    unfolding comma_match
    comma_match-fits loop args (some comma) p hl h =
        bump-bind _ p _ h λ t q b. Small_lem n (loop args) q (hl args) b
    comma_match-fits loop args t p hl h = h
