-- ===== src/Workflow/Expression/Tests.antt =====
-- Runs of the engine, over integers, and the instances of the theorems.
use Prim.Native.Nat.{Ordering}
use ferris_cms.Prelude.{
  ℕ, ◌+◌, ◌*◌, ◌-◌, ◌≡◌, ◌≢◌, refl, Bool, true, false, ◌&&◌, ◌||◌, Option, none, some, [], ◌∷◌,
  is_empty, Text, lit, ◌==◌, leb, if◌then◌else◌,
}
use ferris_cms.Prelude.Int.{ℤ, pos, negsuc, lt_int}
use ferris_cms.Schema.Payload.{Json, null, bool, number, str, object, end, field}
use ferris_cms.Workflow.Expression.{Std, Context, ok, err, out_of_fuel}
use ferris_cms.Workflow.Expression.Template.{evaluate, evaluate_string}
use ferris_cms.Workflow.Expression.Ends.{evaluate_returns}
use ferris_cms.Workflow.Expression.Eval.{eval_expression}
use ferris_cms.Workflow.Expression.Syntax.{
  times, add, Tree, text, reference, member, call, Trees, binary, written, meaning,
}
use ferris_cms.Workflow.Expression.Spelling.{spelled, CanSpell}
use ferris_cms.Workflow.Expression.Meant.{eval_expression-spelled}

abbrev drop_spaces : Text → Text
drop_spaces [] = []
drop_spaces (c ∷ s) = let rest = drop_spaces s in if c == 32 then rest else c ∷ s

abbrev drop_last_spaces : Text → Text
drop_last_spaces [] = []
drop_last_spaces (c ∷ s) =
    let rest = drop_last_spaces s in if is_empty rest && c == 32 then [] else c ∷ rest

abbrev trim : Text → Text
trim s = drop_last_spaces (drop_spaces s)

abbrev digits : Text → ℕ → Option ℤ
digits [] n = some (pos n)
digits (c ∷ s) n =
    let rest = digits s (10 * n + (c - 48)) in if leb 48 c && leb c 57 then rest else none

abbrev is_letter : ℕ → Bool
is_letter c = (leb 65 c && leb c 90) || (leb 97 c && leb c 122)

abbrev to_nat : ℤ → ℕ
to_nat (pos n) = n
to_nat (negsuc n) = 0

abbrev upper_letter : ℕ → ℕ
upper_letter c = if leb 97 c && leb c 122 then c - 32 else c

abbrev upper : Text → Text
upper [] = []
upper (c ∷ s) = upper_letter c ∷ upper s

abbrev order : ℤ → ℤ → Ordering
order a b = if lt_int a b then Ordering.lt else if lt_int b a then Ordering.gt else Ordering.eq

abbrev is_eq : Ordering → Bool
is_eq Ordering.eq = true
is_eq _ = false

-- numbers of one digit
abbrev print_number : Json ℤ → Text
print_number (number (pos n)) = (n + 48) ∷ []
print_number _ = lit "?"

abbrev integers : Std ℤ ℤ
integers = record {
  trim = trim;
  to_lowercase = λ s. s;
  to_uppercase = upper;
  is_alphabetic = is_letter;
  is_alphanumeric = λ c. is_letter c || (leb 48 c && leb c 57);
  parse_f64 = λ s. digits s 0;
  as_f64 = λ n. some n;
  as_i64 = λ n. some n;
  of_i64 = λ n. number n;
  of_f64 = λ n. number n;
  print = print_number;
  equal = λ a b. false;
  to_i64 = λ n. n;
  is_whole = λ n. true;
  is_small = λ n. true;
  zero_f64 = pos 0;
  feq = λ a b. is_eq (order a b);
  partial_cmp = λ a b. some (order a b);
  add = λ a b. pos (to_nat a + to_nat b);
  sub = λ a b. pos (to_nat a - to_nat b);
  mul = λ a b. pos (to_nat a * to_nat b);
  div = λ a b. a;
  neg = λ a. pos 0;
  floor = λ a. a;
  ceil = λ a. a;
  round = λ a. a;
}

abbrev run : Context ℤ
run = record {
  json = object (field (lit "name") (str (lit "Ferris")) (field (lit "age") (number (pos 3)) end));
  item_index = pos 0;
  nodes = [];
  workflow = object (field (lit "id") (number (pos 7)) end);
  execution = null;
  env = (lit "URL", lit "x") ∷ [];
  now = [];
  today = [];
}

typed : evaluate integers run (lit "{{$json.age + 2 * 3}}") ≡ ok (number (pos 9))
unfolding evaluate
typed = refl

mixed :
    evaluate_string integers run (lit "{{$json.name}} is {{$json.age}}") ≡ ok (lit "Ferris is 3")
unfolding evaluate_string
mixed = refl

called : evaluate integers run (lit "{{upper($json[\"name\"])}}") ≡ ok (str (lit "FERRIS"))
unfolding evaluate
called = refl

logic : evaluate integers run (lit "{{!($workflow.id > 5) || $json.age != 0}}") ≡ ok (bool true)
unfolding evaluate
logic = refl

unknown : evaluate integers run (lit "{{hack()}}") ≡ err
unfolding evaluate
unknown = refl

unbalanced : evaluate integers run (lit "{{") ≡ err
unfolding evaluate
unbalanced = refl

-- a number is never the text of its digits, and `>=` holds of values without an order
mistyped : evaluate integers run (lit "{{$json.age == '3'}}") ≡ ok (bool false)
unfolding evaluate
mistyped = refl

unordered : evaluate integers run (lit "{{true >= 3}}") ≡ ok (bool true)
unfolding evaluate
unordered = refl

-- A concrete template to apply the theorem to.
evaluate_returns_example :
    evaluate integers run (lit "{{$json.name}} is {{$json.age}}") ≢ out_of_fuel
evaluate_returns_example = evaluate_returns integers run (lit "{{$json.name}} is {{$json.age}}")

-- numerals of one digit
abbrev print_digit : ℤ → Text
print_digit (pos n) = (n + 48) ∷ []
print_digit (negsuc n) = []

abbrev tree : Tree ℤ
tree =
    binary times (binary add (member (reference (lit "json")) (lit "age")) (Tree.number (pos 2)))
      (call (lit "length") (Trees.cons (text (lit "ab")) Trees.nil))

spelled-tree :
    spelled integers print_digit (written tree []) ≡ lit "( $json . age + 2 ) * length ( \"ab\" ) "
unfolding spelled written
spelled-tree = refl

eval_expression-spelled_example :
    eval_expression integers run (spelled integers print_digit (written tree []))
    ≡ ok (number (pos 10))
unfolding spelled written meaning CanSpell
eval_expression-spelled_example =
    eval_expression-spelled integers run print_digit tree refl
      (
        tt,
        (
          (refl, (refl, (refl, (refl, (refl, tt))))),
          (
            tt,
            (
              (97, lit "ge", refl, refl, refl, (refl, (refl, tt))),
              (
                tt,
                (
                  (50, [], refl, refl, tt, refl),
                  (
                    tt,
                    (
                      tt,
                      (
                        (
                          108,
                          lit "ength",
                          refl,
                          refl,
                          refl,
                          (refl, (refl, (refl, (refl, (refl, tt))))),
                        ),
                        (tt, (tt, (tt, tt))),
                      ),
                    ),
                  ),
                ),
              ),
            ),
          ),
        ),
      )
      refl
