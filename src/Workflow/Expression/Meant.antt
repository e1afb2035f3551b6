-- ===== src/Workflow/Expression/Meant.antt =====
-- From the text of a tree to its meaning.
use ferris_cms.Prelude.{◌≡◌, ap, ◌∙◌, false, [], Text, is_empty, All}
use ferris_cms.Workflow.Expression.{Std, Context, ◌>>=◌}
use ferris_cms.Workflow.Expression.Eval.{eval_tokens, eval_expression}
use ferris_cms.Workflow.Expression.Syntax.{Tree, written, meaning}
use ferris_cms.Workflow.Expression.Written.{eval_tokens-written}
use ferris_cms.Workflow.Expression.Spelling.{CanSpell, spelled}
use ferris_cms.Workflow.Expression.Spelled.{tokenize-spelled}

module _ {N F : Type 0} (std : Std N F) (ctx : Context N) where
  -- Where a space is no letter or digit and numerals and names can be spelled: the evaluation of the
  -- text that is written for a tree of calls, members, items and operators, with parentheses only
  -- where an operator of the tree binds more loosely than its place, gives the meaning of the tree.
  pub eval_expression-spelled :
      (print : F → Text) (a : Tree F)
      → std.is_alphanumeric 32 ≡ false
      → All (CanSpell std print) (written a [])
      → is_empty (std.trim (spelled std print (written a []))) ≡ false
      → eval_expression std ctx (spelled std print (written a [])) ≡ meaning std ctx a
  unfolding eval_expression
  eval_expression-spelled print a space names text = rw text (
      ap (λ r. r >>= λ ts. eval_tokens std ctx ts)
        (tokenize-spelled std print (written a []) space names)
      ∙ eval_tokens-written std ctx a)
