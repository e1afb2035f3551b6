-- ===== src/Workflow/Expression/Eval.antt =====
-- The recursive-descent evaluator. `toks` are the tokens from `pos` on. The functions call one
-- another on fuel: one unit for each call.
use Prim.Native.Nat.{Ordering}
use ferris_cms.Prelude.{
  ℕ, zero, suc, ◌+◌, ◌*◌, Bool, true, false, not, ◌&&◌, ◌||◌, Option, none, some, List, [], ◌∷◌,
  ◌++◌, is_empty, length, Text, lit, text_eq, Assoc, if◌then◌else◌,
}
use ferris_cms.Schema.Payload.{Json, Fields, null, bool, object, end, field}
use ferris_cms.Workflow.Expression.{Std, Context, Result, ok, err, out_of_fuel, ◌>>=◌}
use ferris_cms.Workflow.Expression.Tokens.{
  Tok, num, ident, ref, plus, minus, star, slash, eq, ne, gt, ge, lt, le, and_and, or_or, bang,
  l_paren, r_paren, l_bracket, r_bracket, dot, comma, tokenize,
}
use ferris_cms.Workflow.Expression.Value.{
  get_field, index_value, number_value, truthy, loose_eq, cmp, num_bin, add_values, call_function,
}

-- what a method gives: a value and the tokens that are left
abbrev pub Step : Type 0 → Type 0 → Type 0
Step A F = Result (A × List (Tok F))

-- `expect`
unfoldable pub expect_paren : {A F : Type 0} → A → List (Tok F) → Step A F
expect_paren v (r_paren ∷ rest) = ok (v, rest)
expect_paren v _ = err

unfoldable pub expect_bracket : {A F : Type 0} → A → List (Tok F) → Step A F
expect_bracket v (r_bracket ∷ rest) = ok (v, rest)
expect_bracket v _ = err

abbrev pub is_greater : Option Ordering → Bool
is_greater (some Ordering.gt) = true
is_greater _ = false

abbrev pub is_less : Option Ordering → Bool
is_less (some Ordering.lt) = true
is_less _ = false

module _ {N F : Type 0} (std : Std N F) (ctx : Context N) where
  -- The operators of each level, with what they compute.
  abbrev pub Combine : Type 0
  Combine = Json N → Json N → Json N

  abbrev pub or_op : Tok F → Option Combine
  or_op or_or = some λ v r. bool (truthy std v || truthy std r)
  or_op _ = none

  abbrev pub and_op : Tok F → Option Combine
  and_op and_and = some λ v r. bool (truthy std v && truthy std r)
  and_op _ = none

  abbrev pub equality_op : Tok F → Option Combine
  equality_op eq = some λ v r. bool (loose_eq std v r)
  equality_op ne = some λ v r. bool (not (loose_eq std v r))
  equality_op _ = none

  abbrev pub comparison_op : Tok F → Option Combine
  comparison_op gt = some λ v r. bool (is_greater (cmp std v r))
  comparison_op ge = some λ v r. bool (not (is_less (cmp std v r)))
  comparison_op lt = some λ v r. bool (is_less (cmp std v r))
  comparison_op le = some λ v r. bool (not (is_greater (cmp std v r)))
  comparison_op _ = none

  abbrev pub additive_op : Tok F → Option Combine
  additive_op plus = some λ v r. add_values std v r
  additive_op minus = some λ v r. num_bin std v r std.sub
  additive_op _ = none

  abbrev pub term_op : Tok F → Option Combine
  term_op star = some λ v r. num_bin std v r std.mul
  term_op slash = some λ v r. num_bin std v r std.div
  term_op _ = none

  abbrev pub Method : Type 0
  Method = List (Tok F) → Step (Json N) F

  -- a token that is an operator of the level
  abbrev pub next_op : (Tok F → Option Combine) → List (Tok F) → Option (Combine × List (Tok F))
  next_op ops [] = none
  next_op ops (t ∷ rest) = elim (ops t) [ some g ↦ some (g, rest) | none ↦ none ]

  -- the loop of a level: an operator, an operand, and again
  unfoldable pub level_loop : ℕ → (Tok F → Option Combine) → Method → Json N → Method
  level_loop zero ops operand v toks = out_of_fuel
  level_loop (suc f) ops operand v toks = elim (next_op ops toks) [
    | none ↦ ok (v, toks)
    | some (g, rest) ↦ operand rest >>= λ (r, left). level_loop f ops operand (g v r) left
  ]

  -- The methods `and` to `term` have this shape.
  unfoldable pub level : (Tok F → Option Combine) → Method → Method
  unfolding level_loop
  level ops operand toks =
      operand toks >>= λ (v, rest). level_loop (length rest + 1) ops operand v rest

  unfoldable pub term_level : Method → Method
  unfolding level num_bin
  term_level unary = level term_op unary

  unfoldable pub additive_level : Method → Method
  unfolding term_level level num_bin add_values
  additive_level unary = level additive_op (term_level unary)

  unfoldable pub comparison_level : Method → Method
  unfolding additive_level level cmp
  comparison_level unary = level comparison_op (additive_level unary)

  unfoldable pub equality_level : Method → Method
  unfolding comparison_level level loose_eq
  equality_level unary = level equality_op (comparison_level unary)

  unfoldable pub or_level : Method → Method
  unfolding equality_level level truthy
  or_level unary = level or_op (level and_op (equality_level unary))

  abbrev strings : Assoc Text → Fields N
  strings [] = end
  strings ((k, v) ∷ m) = field k (Json.str v) (strings m)

  abbrev members : Assoc (Json N) → Fields N
  members [] = end
  members ((k, v) ∷ m) = field k v (members m)

  unfoldable pub resolve_reference : Text → Result (Json N)
  unfolding text_eq
  resolve_reference name =
      if text_eq name (lit "json")
      then ok ctx.json
      else if text_eq name (lit "itemIndex")
      then ok (std.of_i64 ctx.item_index)
      else if text_eq name (lit "workflow")
      then ok ctx.workflow
      else if text_eq name (lit "execution")
      then ok ctx.execution
      else if text_eq name (lit "now")
      then ok (Json.str ctx.now)
      else if text_eq name (lit "today")
      then ok (Json.str ctx.today)
      else if text_eq name (lit "env")
      then ok (object (strings ctx.env))
      else if text_eq name (lit "node")
      then ok (object (members ctx.nodes))
      else if text_eq name (lit "items")
      then ok null
      else err

  unfoldable pub constant : Text → Result (Json N)
  unfolding text_eq
  constant name =
      if text_eq name (lit "true")
      then ok (bool true)
      else if text_eq name (lit "false")
      then ok (bool false)
      else if text_eq name (lit "null")
      then ok null
      else err

  abbrev pub with_rest : List (Tok F) → Result (Json N) → Step (Json N) F
  with_rest rest r = r >>= λ v. ok (v, rest)

  -- the end of a call: the parenthesis, then the function
  unfoldable pub close_call : Text → List (Json N) × List (Tok F) → Step (Json N) F
  unfolding expect_paren call_function
  close_call name (args, toks) =
      expect_paren args toks >>= λ (args', rest). with_rest rest (call_function std name args')

  unfoldable mutual
    unfolding or_level num_bin truthy get_field index_value expect_paren expect_bracket close_call
        constant resolve_reference number_value

    pub eval_or : ℕ → List (Tok F) → Step (Json N) F
    eval_or zero toks = out_of_fuel
    eval_or (suc f) toks = or_level (λ ts. eval_unary f ts) toks

    pub eval_unary : ℕ → List (Tok F) → Step (Json N) F
    eval_unary zero toks = out_of_fuel
    eval_unary (suc f) (bang ∷ rest) =
        eval_unary f rest >>= λ (v, left). ok (bool (not (truthy std v)), left)
    eval_unary (suc f) (minus ∷ rest) =
        eval_unary f rest >>= λ (v, left). ok (num_bin std null v (λ a b. std.neg b), left)
    eval_unary (suc f) toks = eval_primary f toks >>= λ (v, rest). postfix_loop f v rest

    pub postfix_loop : ℕ → Json N → List (Tok F) → Step (Json N) F
    postfix_loop zero v toks = out_of_fuel
    postfix_loop (suc f) v (dot ∷ (ident name ∷ rest)) = postfix_loop f (get_field v name) rest
    postfix_loop (suc f) v (dot ∷ rest) = err
    postfix_loop (suc f) v (l_bracket ∷ (r_bracket ∷ rest)) = err
    postfix_loop (suc f) v (l_bracket ∷ rest) = eval_or f rest >>= λ (i, left).
        expect_bracket i left >>= λ (i', left'). postfix_loop f (index_value std v i') left'
    postfix_loop (suc f) (Json.str name) (l_paren ∷ rest) =
        eval_args f rest >>= λ r. close_call name r >>= λ (v, left). postfix_loop f v left
    postfix_loop (suc f) v (l_paren ∷ rest) = err
    postfix_loop (suc f) v toks = ok (v, toks)

    -- the arguments of a call, unless the parenthesis closes at once
    pub eval_args : ℕ → List (Tok F) → Step (List (Json N)) F
    eval_args zero toks = out_of_fuel
    eval_args (suc f) (r_paren ∷ rest) = ok ([], r_paren ∷ rest)
    eval_args (suc f) toks = args_loop f [] toks

    pub args_loop : ℕ → List (Json N) → List (Tok F) → Step (List (Json N)) F
    args_loop zero args toks = out_of_fuel
    args_loop (suc f) args toks =
        eval_or f toks >>= λ (v, rest). comma_match f (args ++ v ∷ []) rest

    pub comma_match : ℕ → List (Json N) → List (Tok F) → Step (List (Json N)) F
    comma_match zero args toks = out_of_fuel
    comma_match (suc f) args (comma ∷ rest) = args_loop f args rest
    comma_match (suc f) args toks = ok (args, toks)

    pub eval_primary : ℕ → List (Tok F) → Step (Json N) F
    eval_primary zero toks = out_of_fuel
    eval_primary (suc f) (num n ∷ rest) = ok (number_value std n, rest)
    eval_primary (suc f) (Tok.str s ∷ rest) = ok (Json.str s, rest)
    eval_primary (suc f) (ident name ∷ (l_paren ∷ rest)) =
        eval_args f rest >>= λ r. close_call name r
    eval_primary (suc f) (ident name ∷ rest) = with_rest rest (constant name)
    eval_primary (suc f) (ref name ∷ rest) = with_rest rest (resolve_reference name)
    eval_primary (suc f) (l_paren ∷ rest) = eval_or f rest >>= λ (v, left). expect_paren v left
    eval_primary (suc f) toks = err

  -- `parse`: no token may be left
  unfoldable pub at_end : Json N × List (Tok F) → Result (Json N)
  at_end (v, []) = ok v
  at_end (v, t ∷ rest) = err

  unfoldable pub eval_tokens : List (Tok F) → Result (Json N)
  unfolding eval_or at_end
  eval_tokens toks = eval_or (8 * length toks + 8) toks >>= at_end

  unfoldable pub eval_expression : Text → Result (Json N)
  unfolding tokenize eval_tokens
  eval_expression s =
      if is_empty (std.trim s) then ok (Json.str []) else tokenize std s >>= eval_tokens
