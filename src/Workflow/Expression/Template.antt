-- ===== src/Workflow/Expression/Template.antt =====
-- Templates: one expression in double braces gives its value, any other text is interpolated.
use ferris_cms.Prelude.{
  ℕ, zero, suc, ◌+◌, ◌*◌, ◌-◌, Bool, true, false, not, ◌&&◌, Option, none, some, List, [], ◌∷◌,
  ◌++◌, length, Text, lit, text_eq, ◌==◌, ltb, if◌then◌else◌,
}
use ferris_cms.Schema.Payload.{Json}
use ferris_cms.Workflow.Expression.{Std, Context, Result, ok, err, out_of_fuel, ◌>>=◌}
use ferris_cms.Workflow.Expression.Value.{contains_text, stringify}
use ferris_cms.Workflow.Expression.Eval.{eval_expression}

unfoldable pub contains_expression : Text → Bool
unfolding contains_text
contains_expression s = contains_text s (lit "{{")

-- `strip_prefix("{{")` and `strip_suffix("}}")`
abbrev pub strip_open : Text → Option Text
strip_open (a ∷ (b ∷ s)) = if a == b'{' && b == b'{' then some s else none
strip_open _ = none

abbrev prepend : ℕ → Option Text → Option Text
prepend c none = none
prepend c (some t) = some (c ∷ t)

unfoldable pub strip_close : Text → Option Text
unfolding text_eq
strip_close [] = none
strip_close (c ∷ s) =
    let rest = prepend c (strip_close s) in if text_eq (c ∷ s) (lit "}}") then some [] else rest

abbrev pub single_part : Option Text → Option Text
single_part none = none
single_part (some rest) =
    if not (contains_text rest (lit "{{")) && not (contains_text rest (lit "}}"))
    then some rest
    else none

abbrev pub stripped : Option Text → Option Text
stripped none = none
stripped (some s) = single_part (strip_close s)

module _ {N F : Type 0} (std : Std N F) where
  unfoldable pub single_expression : Text → Option Text
  unfolding strip_close contains_text
  single_expression template =
      let t = std.trim template in if ltb (length t) 4 then none else stripped (strip_open t)

abbrev pub prepend_inner : List ℕ → Option (Text × Text) → Option (Text × Text)
prepend_inner cs none = none
prepend_inner cs (some (inner, rest)) = some (cs ++ inner, rest)

-- The text up to the closing braces, and what follows them; `depth` of the pairs are open.
unfoldable pub find_close : ℕ → Text → Option (Text × Text)
find_close depth [] = none
find_close depth (a ∷ []) = none
find_close depth (a ∷ (b ∷ s)) =
    let deeper = prepend_inner (a ∷ b ∷ []) (find_close (depth + 1) s) in
    let closed = prepend_inner (a ∷ b ∷ []) (find_close (depth - 1) s) in
    let next = prepend_inner (a ∷ []) (find_close depth (b ∷ s)) in
    if a == b'{' && b == b'{'
    then deeper
    else if a == b'}' && b == b'}'
    then if depth - 1 == 0 then some ([], s) else closed
    else next

module _ {N F : Type 0} (std : Std N F) (ctx : Context N) where
  -- The loop over the template, on one unit of fuel for each round; `out` is what is written.
  unfoldable mutual
    unfolding find_close eval_expression stringify

    pub interpolate_loop : ℕ → Text → Text → Result Text
    interpolate_loop zero out s = out_of_fuel
    interpolate_loop (suc f) out [] = ok out
    interpolate_loop (suc f) out (a ∷ []) = interpolate_loop f (out ++ a ∷ []) []
    interpolate_loop (suc f) out (a ∷ (b ∷ s)) = elim (a == b'{' && b == b'{') [
      | true ↦ interpolate_block f out (find_close 1 s)
      | false ↦ interpolate_loop f (out ++ a ∷ []) (b ∷ s)
    ]

    pub interpolate_block : ℕ → Text → Option (Text × Text) → Result Text
    interpolate_block zero out found = out_of_fuel
    interpolate_block (suc f) out none = err
    interpolate_block (suc f) out (some (inner, rest)) =
        eval_expression std ctx (std.trim inner) >>= λ v.
        interpolate_loop f (out ++ stringify std v) rest

  unfoldable pub interpolate : Text → Result (Json N)
  unfolding interpolate_loop
  interpolate template =
      interpolate_loop (2 * length template + 2) [] template >>= λ out. ok (Json.str out)

  abbrev pub evaluate_part : Option Text → Text → Result (Json N)
  evaluate_part (some inner) template = eval_expression std ctx (std.trim inner)
  evaluate_part none template = interpolate template

  unfoldable pub evaluate : Text → Result (Json N)
  unfolding single_expression interpolate eval_expression
  evaluate template = evaluate_part (single_expression std template) template

  unfoldable pub evaluate_string : Text → Result Text
  unfolding evaluate stringify
  evaluate_string template = evaluate template >>= λ v. ok (stringify std v)
