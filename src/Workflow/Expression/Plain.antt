-- ===== src/Workflow/Expression/Plain.antt =====
-- A template without an opening pair of braces is its own value.
use ferris_cms.Prelude.{
  ℕ, zero, suc, ◌+◌, ◌*◌, ◌<◌, ◌≡◌, refl, Bool, true, false, ◌&&◌, none, [], ◌∷◌, ◌++◌, length,
  Text, ◌==◌, arith,
}
use mathlib.Core.List.{append_assoc, append-nil}
use ferris_cms.Schema.Payload.{Json}
use ferris_cms.Workflow.Expression.{Std, Context, ok}
use ferris_cms.Workflow.Expression.Value.{contains_text, starts_with}
use ferris_cms.Workflow.Expression.Template.{
  contains_expression, strip_open, single_expression, interpolate_loop, interpolate, evaluate,
}

-- what the absence of the pair says of the first two characters, and of the rest
contains_expression-pair :
    (a b : ℕ) (s : Text)
    → contains_expression (a ∷ (b ∷ s)) ≡ false
    → ((a == b'{' && b == b'{') ≡ false) × (contains_expression (b ∷ s) ≡ false)
unfolding contains_expression contains_text starts_with
contains_expression-pair a b s h = ground (arith)

contains_expression-tail :
    (a : ℕ) (s : Text) → contains_expression (a ∷ s) ≡ false → contains_expression s ≡ false
unfolding contains_expression
contains_expression-tail a [] h = refl
contains_expression-tail a (b ∷ s) h = (contains_expression-pair a b s h).1

contains_expression-suffix :
    (p s : Text) → contains_expression (p ++ s) ≡ false → contains_expression s ≡ false
contains_expression-suffix [] s h = h
contains_expression-suffix (a ∷ p) s h =
    contains_expression-suffix p s (contains_expression-tail a (p ++ s) h)

contains_expression-prefix :
    (s q : Text) → contains_expression (s ++ q) ≡ false → contains_expression s ≡ false
unfolding contains_expression contains_text starts_with
contains_expression-prefix [] q h = refl
contains_expression-prefix (a ∷ []) q h = ground arith
contains_expression-prefix (a ∷ (b ∷ s)) q h =
    ground (arith, contains_expression-pair a b (s ++ q) h, contains_expression-prefix (b ∷ s) q)

strip_open-none : (t : Text) → contains_expression t ≡ false → strip_open t ≡ none
unfolding contains_expression
strip_open-none [] h = refl
strip_open-none (a ∷ []) h = refl
strip_open-none (a ∷ (b ∷ s)) h = rw ((contains_expression-pair a b s h).0) refl

module _ {N F : Type 0} (std : Std N F) (ctx : Context N) where
  interpolate_loop-plain :
      (f : ℕ) (out s : Text)
      → contains_expression s ≡ false
      → length s < f
      → interpolate_loop std ctx f out s ≡ ok (out ++ s)
  unfolding interpolate_loop contains_expression
  interpolate_loop-plain zero out s h l = absurd (omega arith)
  interpolate_loop-plain (suc f) out [] h l = rw (append-nil out) refl
  interpolate_loop-plain (suc f) out (a ∷ []) h l =
      rw (append-nil (out ++ a ∷ [])) at
        (interpolate_loop-plain f (out ++ a ∷ []) [] refl (omega arith))
  interpolate_loop-plain (suc f) out (a ∷ (b ∷ s)) h l =
      second_branch (a == b'{' && b == b'{') _ _ (contains_expression-pair a b s h).0 (
        rw (append_assoc out (a ∷ []) (b ∷ s)) at (
          interpolate_loop-plain f (out ++ a ∷ []) (b ∷ s) (contains_expression-pair a b s h).1
            (omega arith)))
    where
      second_branch :
          {A : Type 0} {z : A} (c : Bool) (x y : A)
          → c ≡ false
          → y ≡ z
          → elim c [ true ↦ x | false ↦ y ] ≡ z
      second_branch true x y e h = cc
      second_branch false x y e h = h

  interpolate-plain :
      (s : Text) → contains_expression s ≡ false → interpolate std ctx s ≡ ok (Json.str s)
  unfolding interpolate
  interpolate-plain s h = rw (interpolate_loop-plain (2 * length s + 2) [] s h (omega arith)) refl

  single_expression-none :
      (s : Text) → contains_expression (std.trim s) ≡ false → single_expression std s ≡ none
  unfolding single_expression
  single_expression-none s h = rw (strip_open-none (std.trim s) h) (ground arith)

  -- Where trimming a text keeps a part of it: a template without an opening pair of braces is
  -- returned as it is.
  pub evaluate-plain :
      (template : Text)
      → ((s : Text) → (p : Text) × (q : Text) × (s ≡ p ++ (std.trim s ++ q)))
      → contains_expression template ≡ false
      → evaluate std ctx template ≡ ok (Json.str template)
  unfolding evaluate
  evaluate-plain template trimmed h =
      let (p, q, e) = trimmed template in
      rw
        (single_expression-none template (
          contains_expression-prefix (std.trim template) q
            (contains_expression-suffix p (std.trim template ++ q) (rw e at h))))
        (interpolate-plain template h)
