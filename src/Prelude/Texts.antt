-- ===== src/Prelude/Texts.antt =====
-- Rust's `String` and `&str`: the list of the UTF-8 bytes. Equal texts are equal lists.
use Prim.Native.Char.{code}
use Prim.Native.String.{String}
use Prim.Native.Nat.{ℕ}
use mathlib.Core.Path.{◌≡◌, refl}
use mathlib.Core.Logic.{◌↔◌, ◌⊎◌, inl, inr}
use mathlib.Core.Bool.{Bool, true, false, ◌&&◌, ◌||◌}
use mathlib.Core.List.{List, [], ◌∷◌}
use native.Mathlib.Omega.{arith}
use ferris_cms.Prelude.Tests.{◌==◌, Bool-cases}
use ferris_cms.Prelude.Lists.{In}

abbrev pub Text : Type 0
Text = List ℕ

-- A literal of the source: the code points are its bytes, since each literal here is ASCII.
abbrev pub lit : String → Text
lit String.[] = []
lit (String.◌∷◌ c s) = code c ∷ lit s

unfoldable pub text_eq : Text → Text → Bool
text_eq [] [] = true
text_eq [] (y ∷ ys) = false
text_eq (x ∷ xs) [] = false
text_eq (x ∷ xs) (y ∷ ys) = x == y && text_eq xs ys

pub text_eq_iff : (s t : Text) → (text_eq s t ≡ true) ↔ (s ≡ t)
unfolding text_eq
text_eq_iff [] [] = (λ h. refl, λ h. refl)
text_eq_iff [] (y ∷ ys) = (λ h. cc, λ h. cc)
text_eq_iff (x ∷ xs) [] = (λ h. cc, λ h. cc)
text_eq_iff (x ∷ xs) (y ∷ ys) = ground (arith, text_eq_iff xs ys)

pub text_eq_refl : (s : Text) → text_eq s s ≡ true
text_eq_refl s = (text_eq_iff s s).1 refl

-- `xs.contains(&a)`
unfoldable pub contains : List Text → Text → Bool
contains [] a = false
contains (x ∷ xs) a = text_eq a x || contains xs a

pub contains_iff : (xs : List Text) (a : Text) → (contains xs a ≡ true) ↔ In a xs
unfolding contains
contains_iff [] a = (λ h. cc, λ h. absurd h)
contains_iff (x ∷ xs) a = ground (arith, contains_iff xs a, text_eq_iff a x)

-- equality of vectors of texts
unfoldable pub texts_eq : List Text → List Text → Bool
unfolding text_eq
texts_eq [] [] = true
texts_eq [] (t ∷ ts) = false
texts_eq (s ∷ ss) [] = false
texts_eq (s ∷ ss) (t ∷ ts) = text_eq s t && texts_eq ss ts

pub texts_eq_iff : (ss ts : List Text) → (texts_eq ss ts ≡ true) ↔ (ss ≡ ts)
unfolding texts_eq
texts_eq_iff [] [] = (λ h. refl, λ h. refl)
texts_eq_iff [] (t ∷ ts) = (λ h. cc, λ h. cc)
texts_eq_iff (s ∷ ss) [] = (λ h. cc, λ h. cc)
texts_eq_iff (s ∷ ss) (t ∷ ts) = ground (arith, text_eq_iff s t, texts_eq_iff ss ts)

pub In-cases : (a : Text) (xs : List Text) → In a xs ⊎ (¬ In a xs)
In-cases a xs = elim (Bool-cases (contains xs a)) [
  | inl e ↦ inl ((contains_iff xs a).0 e)
  | inr e ↦ inr (λ h. absurd (cc (e, (contains_iff xs a).1 h)))
]
