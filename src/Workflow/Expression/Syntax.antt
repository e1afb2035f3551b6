-- ===== src/Workflow/Expression/Syntax.antt =====
-- The expressions as trees: what they stand for, and how they are written with parentheses only
-- where an operand binds more loosely than its place. The call of a function whose name is computed,
-- as in `$json.f(1)`, is no tree.
use ferris_cms.Prelude.{
  ℕ, zero, suc, ◌<◌, ◌≤◌, Bool, true, false, not, ◌&&◌, ◌||◌, List, [], ◌∷◌, length, Text, arith,
}
use ferris_cms.Schema.Payload.{Json, null, bool}
use ferris_cms.Workflow.Expression.{Std, Context, Result, ok, ◌>>=◌}
use ferris_cms.Workflow.Expression.Tokens.{
  Tok, num, ident, ref, plus, minus, star, slash, eq, ne, gt, ge, lt, le, and_and, or_or, bang,
  l_paren, r_paren, l_bracket, r_bracket, dot, comma,
}
use ferris_cms.Workflow.Expression.Value.{
  get_field, index_value, number_value, truthy, loose_eq, cmp, num_bin, add_values, call_function,
}
use ferris_cms.Workflow.Expression.Eval.{is_greater, is_less, constant, resolve_reference}

pub data Operator : Type 0 where
  times divide add subtract greater greater_equal less less_equal equals differs both either :
      Operator

-- how loosely an operator binds
abbrev pub rank : Operator → ℕ
rank times = 0
rank divide = 0
rank add = 1
rank subtract = 1
rank greater = 2
rank greater_equal = 2
rank less = 2
rank less_equal = 2
rank equals = 3
rank differs = 3
rank both = 4
rank either = 5

abbrev pub sign : {F : Type 0} → Operator → Tok F
sign times = star
sign divide = slash
sign add = plus
sign subtract = minus
sign greater = gt
sign greater_equal = ge
sign less = lt
sign less_equal = le
sign equals = eq
sign differs = ne
sign both = and_and
sign either = or_or

mutual
  pub data Tree (F : Type 0) : Type 0 where
    number : F → Tree F
    text name reference : Text → Tree F
    member : Tree F → Text → Tree F
    item : Tree F → Tree F → Tree F
    call : Text → Trees F → Tree F
    negation minus_of : Tree F → Tree F
    binary : Operator → Tree F → Tree F → Tree F

  pub data Trees (F : Type 0) : Type 0 where
    nil : Trees F
    cons : Tree F → Trees F → Trees F

-- `m ≤ n`, computed from both
abbrev pub fits : ℕ → ℕ → Bool
fits zero n = true
fits (suc m) zero = false
fits (suc m) (suc n) = fits m n

module _ {F : Type 0} where
  -- 0 for what a member can be taken of, 1 for a prefix, and more for operators
  abbrev pub looseness : Tree F → ℕ
  looseness (negation a) = 1
  looseness (minus_of a) = 1
  looseness (binary op a b) = suc (suc (rank op))
  looseness _ = 0

  abbrev pub bracket : Bool → (List (Tok F) → List (Tok F)) → List (Tok F) → List (Tok F)
  bracket true written rest = written rest
  bracket false written rest = l_paren ∷ written (r_paren ∷ rest)

  -- The tokens of a tree, before the tokens `rest`.
  unfoldable mutual
    pub written : Tree F → List (Tok F) → List (Tok F)
    written (number x) rest = num x ∷ rest
    written (text s) rest = Tok.str s ∷ rest
    written (name s) rest = ident s ∷ rest
    written (reference s) rest = ref s ∷ rest
    written (member a s) rest = bracket (fits (looseness a) 0) (written a) (dot ∷ ident s ∷ rest)
    written (item a i) rest =
        bracket (fits (looseness a) 0) (written a) (l_bracket ∷ written i (r_bracket ∷ rest))
    written (negation a) rest = bang ∷ bracket (fits (looseness a) 1) (written a) rest
    written (minus_of a) rest = minus ∷ bracket (fits (looseness a) 1) (written a) rest
    written (binary op a b) rest =
        bracket (fits (looseness a) (suc (suc (rank op)))) (written a)
          (sign op ∷ bracket (fits (looseness b) (suc (rank op))) (written b) rest)
    written (call s trees) rest = ident s ∷ (l_paren ∷ written_all trees (r_paren ∷ rest))

    pub written_all : Trees F → List (Tok F) → List (Tok F)
    written_all nil rest = rest
    written_all (cons a more) rest = written a (written_more more rest)

    -- the other arguments, with a comma before each
    pub written_more : Trees F → List (Tok F) → List (Tok F)
    written_more nil rest = rest
    written_more (cons a more) rest = comma ∷ written a (written_more more rest)

  -- the tree `a` where trees up to the looseness `n` need no parentheses
  abbrev pub shown : ℕ → Tree F → List (Tok F) → List (Tok F)
  shown n a = bracket (fits (looseness a) n) (written a)

module _ {N F : Type 0} (std : Std N F) (ctx : Context N) where
  unfoldable pub applied : Operator → Json N → Json N → Json N
  unfolding num_bin add_values cmp loose_eq truthy
  applied times v r = num_bin std v r std.mul
  applied divide v r = num_bin std v r std.div
  applied add v r = add_values std v r
  applied subtract v r = num_bin std v r std.sub
  applied greater v r = bool (is_greater (cmp std v r))
  applied greater_equal v r = bool (not (is_less (cmp std v r)))
  applied less v r = bool (is_less (cmp std v r))
  applied less_equal v r = bool (not (is_greater (cmp std v r)))
  applied equals v r = bool (loose_eq std v r)
  applied differs v r = bool (not (loose_eq std v r))
  applied both v r = bool (truthy std v && truthy std r)
  applied either v r = bool (truthy std v || truthy std r)

  -- The value of a tree, its parts from the left to the right.
  unfoldable mutual
    unfolding applied constant resolve_reference get_field index_value number_value truthy num_bin
        call_function

    pub meaning : Tree F → Result (Json N)
    meaning (number x) = ok (number_value std x)
    meaning (text s) = ok (Json.str s)
    meaning (name s) = constant std ctx s
    meaning (reference s) = resolve_reference std ctx s
    meaning (member a s) = meaning a >>= λ v. ok (get_field v s)
    meaning (item a i) = meaning a >>= λ v. meaning i >>= λ w. ok (index_value std v w)
    meaning (negation a) = meaning a >>= λ v. ok (bool (not (truthy std v)))
    meaning (minus_of a) = meaning a >>= λ v. ok (num_bin std null v (λ x y. std.neg y))
    meaning (binary op a b) = meaning a >>= λ v. meaning b >>= λ r. ok (applied op v r)
    meaning (call s trees) = meanings trees >>= λ vs. call_function std s vs

    pub meanings : Trees F → Result (List (Json N))
    meanings nil = ok []
    meanings (cons a more) = meaning a >>= λ v. meanings more >>= λ vs. ok (v ∷ vs)

module _ {F : Type 0} where
  pub length-bracket :
      (b : Bool) (w : List (Tok F) → List (Tok F))
      → ((rest : List (Tok F)) → length rest < length (w rest))
      → (rest : List (Tok F)) → length rest < length (bracket b w rest)
  length-bracket true w h rest = h rest
  length-bracket false w h rest = omega (arith, h (r_paren ∷ rest))

  mutual
    unfolding written written_all written_more

    -- A tree takes a token, and arguments give none back.
    pub length-written : (a : Tree F) (rest : List (Tok F)) → length rest < length (written a rest)
    length-written (number x) rest = omega arith
    length-written (text s) rest = omega arith
    length-written (name s) rest = omega arith
    length-written (reference s) rest = omega arith
    length-written (member a s) rest = omega (
      arith,
      length-bracket (fits (looseness a) 0) (written a) (length-written a) (dot ∷ ident s ∷ rest),
    )
    length-written (item a i) rest = omega (
      arith,
      length-written i (r_bracket ∷ rest),
      length-bracket (fits (looseness a) 0) (written a) (length-written a)
          (l_bracket ∷ written i (r_bracket ∷ rest)),
    )
    length-written (negation a) rest =
        omega (arith, length-bracket (fits (looseness a) 1) (written a) (length-written a) rest)
    length-written (minus_of a) rest =
        omega (arith, length-bracket (fits (looseness a) 1) (written a) (length-written a) rest)
    length-written (binary op a b) rest = omega (
      arith,
      length-bracket (fits (looseness b) (suc (rank op))) (written b) (length-written b) rest,
      length-bracket (fits (looseness a) (suc (suc (rank op)))) (written a) (length-written a)
          (sign op ∷ bracket (fits (looseness b) (suc (rank op))) (written b) rest),
    )
    length-written (call s trees) rest = omega (arith, length-written_all trees (r_paren ∷ rest))

    length-written_all :
        (trees : Trees F) (rest : List (Tok F)) → length rest ≤ length (written_all trees rest)
    length-written_all nil rest = omega arith
    length-written_all (cons a more) rest =
        omega (arith, length-written a (written_more more rest), length-written_more more rest)

    pub length-written_more :
        (trees : Trees F) (rest : List (Tok F)) → length rest ≤ length (written_more trees rest)
    length-written_more nil rest = omega arith
    length-written_more (cons a more) rest =
        omega (arith, length-written a (written_more more rest), length-written_more more rest)
