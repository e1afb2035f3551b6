-- ===== src/Prelude/Visited.antt =====
-- The names that a search has not visited, which bound the rounds that it still makes.
use Prim.Native.Nat.{ℕ, ◌+◌, ◌≤◌, ◌<◌}
use mathlib.Core.Path.{◌≡◌}
use mathlib.Core.Logic.{inl, inr}
use mathlib.Core.Bool.{false}
use mathlib.Core.List.{List, [], ◌∷◌}
use native.Mathlib.Omega.{arith}
use ferris_cms.Prelude.Tests.{if◌then◌else◌}
use ferris_cms.Prelude.Lists.{length, In}
use ferris_cms.Prelude.Texts.{Text, contains, text_eq_iff}

-- how many of the names are not in the list
abbrev pub unvisited : List Text → List Text → ℕ
unvisited v [] = 0
unvisited v (n ∷ ns) = (if contains v n then 0 else 1) + unvisited v ns

unvisited-cons_le : (t : Text) (v ns : List Text) → unvisited (t ∷ v) ns ≤ unvisited v ns
unfolding contains
unvisited-cons_le t v [] = omega arith
unvisited-cons_le t v (n ∷ ns) = ground (arith, unvisited-cons_le t v ns)

pub unvisited-cons_lt :
    (t : Text) (v ns : List Text)
    → In t ns
    → contains v t ≡ false
    → unvisited (t ∷ v) ns < unvisited v ns
unfolding contains
unvisited-cons_lt t v [] m h = absurd m
unvisited-cons_lt t v (n ∷ ns) (inl e) h =
    ground (arith, e, text_eq_iff n t, unvisited-cons_le t v ns)
unvisited-cons_lt t v (n ∷ ns) (inr m) h = ground (arith, unvisited-cons_lt t v ns m h)

pub unvisited_le : (v ns : List Text) → unvisited v ns ≤ length ns
unvisited_le v [] = omega arith
unvisited_le v (n ∷ ns) = ground (arith, unvisited_le v ns)
