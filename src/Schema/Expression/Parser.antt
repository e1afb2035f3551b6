-- ===== src/Schema/Expression/Parser.antt =====
-- The recursive-descent parser of expression.rs. `text` is the source from `pos` on. The functions
-- call one another on fuel: one unit for each call.
pub mod Rounds
pub mod Total
use ferris_cms.Prelude.{
  ℕ, zero, suc, ◌+◌, ◌*◌, Bool, true, false, Option, none, some, List, [], ◌∷◌, ◌++◌, length, map,
  Text, lit, text_eq, if◌then◌else◌,
}
use ferris_cms.Domain.Naming.{to_ascii_lowercase}
use ferris_cms.Schema.Expression.Ast.{
  BinOp, add, sub, mul, div, mod_, eq, ne, lt, lte, gt, gte, neg, AggregateFunction, count,
  uppercase, parse_aggregate, Expr, Exprs, nil, cons, column, bool, null, relation_column,
  relation_aggregate, binary, unary, func,
}
use ferris_cms.Schema.Expression.Lexer.{
  Operator, diamond, bang_eq, le, ge, plus, minus, star, slash, percent, equals, less, greater,
  Token, ident, op, l_paren, r_paren, comma, dot, ParseError, unexpected_end, unexpected_trailing,
  expected_r_paren, expected_r_paren_after_arguments, expected_relation_field, unexpected_token,
  Lexed, token, end_of_input, error, next_token, skip_ws,
}

pub data Parsed {ℓ} (A : Type ℓ) : Type ℓ where
  ok : A → Parsed A
  err : ParseError → Parsed A
  out_of_fuel : Parsed A

infixl 5 ◌>>=◌
abbrev pub ◌>>=◌ {ℓ κ} : {A : Type ℓ} {B : Type κ} → Parsed A → (A → Parsed B) → Parsed B
ok a >>= f = f a
err e >>= f = err e
out_of_fuel >>= f = out_of_fuel

pub record Parser (N : Type 0) : Type 0 where
  pub text : Text
  pub lookahead : Option (Token N)

abbrev pub comparison : {N : Type 0} → Option (Token N) → Option BinOp
comparison (some (op equals)) = some eq
comparison (some (op bang_eq)) = some ne
comparison (some (op diamond)) = some ne
comparison (some (op less)) = some lt
comparison (some (op le)) = some lte
comparison (some (op greater)) = some gt
comparison (some (op ge)) = some gte
comparison _ = none

abbrev pub additive : {N : Type 0} → Option (Token N) → Option BinOp
additive (some (op plus)) = some add
additive (some (op minus)) = some sub
additive (some (op Operator.concat)) = some BinOp.concat
additive _ = none

abbrev pub multiplicative : {N : Type 0} → Option (Token N) → Option BinOp
multiplicative (some (op star)) = some mul
multiplicative (some (op slash)) = some div
multiplicative (some (op percent)) = some mod_
multiplicative _ = none

abbrev pub lowercase : Text → Text
lowercase s = map to_ascii_lowercase s

-- the literal keywords
unfoldable pub keyword : {N : Type 0} → Text → Option (Expr N)
unfolding text_eq
keyword name =
    if text_eq (lowercase name) (lit "true")
    then some (bool true)
    else if text_eq (lowercase name) (lit "false")
    then some (bool false)
    else if text_eq (lowercase name) (lit "null")
    then some null
    else none

abbrev aggregate_call : {N : Type 0} → Option AggregateFunction → Text → Exprs N → Expr N
aggregate_call (some function) name (cons (relation_column relation field) nil) =
    relation_aggregate relation (some field) function
aggregate_call (some count) name (cons (column relation) nil) =
    relation_aggregate relation none count
aggregate_call _ name args = func (uppercase name) args

-- `COUNT(relation)`, an aggregate over `relation.field`, or a plain function
unfoldable pub call : {N : Type 0} → Text → Exprs N → Expr N
unfolding parse_aggregate
call name args = aggregate_call (parse_aggregate name) name args

abbrev pub snoc : {N : Type 0} → Exprs N → Expr N → Exprs N
snoc nil e = cons e nil
snoc (cons x xs) e = cons x (snoc xs e)

module _ {N : Type 0} (parse_f64 : Text → Option N) where
  abbrev looked : Lexed N → Text → Option (Token N) × Parser N
  looked (token t rest) s = (some t, record { text = rest; lookahead = some t })
  looked end_of_input s = (none, record { text = []; lookahead = none })
  looked (error _ rest) s = (none, record { text = rest; lookahead = none })

  -- An error of the lexer is taken for the end of the input.
  unfoldable pub peek : Parser N → Option (Token N) × Parser N
  unfolding next_token
  peek p = elim p.lookahead [
    | some t ↦ (some t, p)
    | none ↦ looked (next_token parse_f64 p.text) p.text
  ]

  abbrev consumed : Option (Token N) → Parser N → Parsed (Token N × Parser N)
  consumed (some t) p = ok (t, record p { lookahead = none })
  consumed none p = err unexpected_end

  unfoldable pub bump : Parser N → Parsed (Token N × Parser N)
  unfolding peek
  bump p = let (t, q) = peek p in consumed t q

  -- the token after an expression in parentheses, and after the arguments of a call
  unfoldable pub close : ParseError → Parser N → Parsed (Parser N)
  unfolding bump
  close e p = bump p >>= λ (t, q). elim t [ r_paren ↦ ok q | _ ↦ err e ]

  unfoldable pub field_name : Text → Parser N → Parsed (Expr N × Parser N)
  unfolding bump
  field_name name p = bump p >>= λ (t, q). elim t [
    | ident field ↦ ok (relation_column name field, q)
    | _ ↦ err expected_relation_field
  ]

  abbrev pub Run : Type 0
  Run = Parser N → Parsed (Expr N × Parser N)

  -- One round of the three loops over binary operators: `next` parses the right operand.
  unfoldable pub binary_round :
      Run → (Expr N → Run) → Expr N → Option BinOp → Parser N → Parsed (Expr N × Parser N)
  binary_round next loop left none p = ok (left, p)
  binary_round next loop left (some o) p =
      bump p >>= λ (_, q). next q >>= λ (right, q1). loop (binary o left right) q1

  unfoldable pub unary_match : Run → Run → Option (Token N) → Parser N → Parsed (Expr N × Parser N)
  unary_match operand primary (some (op minus)) p =
      bump p >>= λ (_, q). operand q >>= λ (e, q1). ok (unary neg e, q1)
  unary_match operand primary (some (op plus)) p = bump p >>= λ (_, q). operand q
  unary_match operand primary t p = primary p

  unfoldable pub primary_match :
      Run → (Text → Run) → Token N → Parser N → Parsed (Expr N × Parser N)
  unfolding keyword
  primary_match inner named (Token.number n) p = ok (Expr.number n, p)
  primary_match inner named (Token.str s) p = ok (Expr.str s, p)
  primary_match inner named l_paren p =
      inner p >>= λ (e, q). close expected_r_paren q >>= λ q1. ok (e, q1)
  primary_match inner named (ident name) p = elim (keyword name) [
    | some e ↦ ok (e, p)
    | none ↦ named name p
  ]
  primary_match inner named t p = err unexpected_token

  -- a call, a relation field or a column
  unfoldable pub name_match :
      (Parser N → Parsed (Exprs N × Parser N))
      → Text
      → Option (Token N)
      → Parser N
      → Parsed (Expr N × Parser N)
  unfolding call field_name
  name_match args name (some l_paren) p = bump p >>= λ (_, q). args q >>= λ (es, q1).
      close expected_r_paren_after_arguments q1 >>= λ q2. ok (call name es, q2)
  name_match args name (some dot) p = bump p >>= λ (_, q). field_name name q
  name_match args name t p = ok (column name, p)

  unfoldable pub args_match :
      (Exprs N → Parser N → Parsed (Exprs N × Parser N))
      → Option (Token N)
      → Parser N
      → Parsed (Exprs N × Parser N)
  args_match loop (some r_paren) p = ok (nil, p)
  args_match loop t p = loop nil p

  unfoldable pub comma_match :
      (Exprs N → Parser N → Parsed (Exprs N × Parser N))
      → Exprs N
      → Option (Token N)
      → Parser N
      → Parsed (Exprs N × Parser N)
  comma_match loop args (some comma) p = bump p >>= λ (_, q). loop args q
  comma_match loop args t p = ok (args, p)

  unfoldable mutual
    pub parse_expr : ℕ → Parser N → Parsed (Expr N × Parser N)
    parse_expr zero p = out_of_fuel
    parse_expr (suc f) p = parse_additive f p >>= λ (left, q). expr_loop f left q

    pub expr_loop : ℕ → Expr N → Parser N → Parsed (Expr N × Parser N)
    expr_loop zero left p = out_of_fuel
    expr_loop (suc f) left p =
        let (t, q) = peek p in binary_round (parse_additive f) (expr_loop f) left (comparison t) q

    pub parse_additive : ℕ → Parser N → Parsed (Expr N × Parser N)
    parse_additive zero p = out_of_fuel
    parse_additive (suc f) p = parse_multiplicative f p >>= λ (left, q). additive_loop f left q

    pub additive_loop : ℕ → Expr N → Parser N → Parsed (Expr N × Parser N)
    additive_loop zero left p = out_of_fuel
    additive_loop (suc f) left p =
        let (t, q) = peek p in
        binary_round (parse_multiplicative f) (additive_loop f) left (additive t) q

    pub parse_multiplicative : ℕ → Parser N → Parsed (Expr N × Parser N)
    parse_multiplicative zero p = out_of_fuel
    parse_multiplicative (suc f) p = parse_unary f p >>= λ (left, q). multiplicative_loop f left q

    pub multiplicative_loop : ℕ → Expr N → Parser N → Parsed (Expr N × Parser N)
    multiplicative_loop zero left p = out_of_fuel
    multiplicative_loop (suc f) left p =
        let (t, q) = peek p in
        binary_round (parse_unary f) (multiplicative_loop f) left (multiplicative t) q

    pub parse_unary : ℕ → Parser N → Parsed (Expr N × Parser N)
    parse_unary zero p = out_of_fuel
    parse_unary (suc f) p = let (t, q) = peek p in unary_match (parse_unary f) (parse_primary f) t q

    pub parse_primary : ℕ → Parser N → Parsed (Expr N × Parser N)
    parse_primary zero p = out_of_fuel
    parse_primary (suc f) p = bump p >>= λ (t, q). primary_match (parse_expr f) (parse_name f) t q

    pub parse_name : ℕ → Text → Parser N → Parsed (Expr N × Parser N)
    parse_name zero name p = out_of_fuel
    parse_name (suc f) name p = let (t, q) = peek p in name_match (parse_args f) name t q

    pub parse_args : ℕ → Parser N → Parsed (Exprs N × Parser N)
    parse_args zero p = out_of_fuel
    parse_args (suc f) p = let (t, q) = peek p in args_match (args_loop f) t q

    pub args_loop : ℕ → Exprs N → Parser N → Parsed (Exprs N × Parser N)
    args_loop zero args p = out_of_fuel
    args_loop (suc f) args p = parse_expr f p >>= λ (e, q).
        let (t, q1) = peek q in comma_match (args_loop f) (snoc args e) t q1

  -- `skip_ws`, and the test `at_end`
  unfoldable pub at_end : Expr N → Parser N → Parsed (Expr N)
  unfolding peek
  at_end e p =
      let (t, _) = peek (record p { text = skip_ws p.text }) in
      elim t [ none ↦ ok e | some _ ↦ err unexpected_trailing ]

  -- each byte allows for the calls of all levels
  abbrev pub fuel_for : Text → ℕ
  fuel_for input = 16 * length input + 16

  unfoldable pub parse_expression : Text → Parsed (Expr N)
  unfolding at_end
  parse_expression input =
      parse_expr (fuel_for input) (record { text = input; lookahead = none }) >>= λ (e, p).
      at_end e p
