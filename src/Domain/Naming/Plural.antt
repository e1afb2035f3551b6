-- ===== src/Domain/Naming/Plural.antt =====
-- crates/core-domain/src/naming.rs: pascal_case, pluralize and singularize.
pub mod Regular
use mathlib.Core.List.{reverse}
use ferris_cms.Prelude.{
  ℕ, zero, suc, ◌-◌, Bool, true, false, not, ◌&&◌, ◌||◌, Option, none, some, List, [], ◌∷◌, ◌++◌,
  map, is_empty, length, Text, lit, text_eq, ltb, ◌==◌, Assoc, lookup, if◌then◌else◌,
}
use ferris_cms.Domain.Naming.{underscore, to_ascii_lowercase, to_ascii_uppercase, snake_case}

-- `split('_')`
abbrev attach : ℕ → List Text → List Text
attach c [] = (c ∷ []) ∷ []
attach c (w ∷ ws) = (c ∷ w) ∷ ws

unfoldable pub split_words : Text → List Text
split_words [] = [] ∷ []
split_words (c ∷ s) = let ws = split_words s in if c == underscore then [] ∷ ws else attach c ws

abbrev capitalize : Text → Text
capitalize [] = []
capitalize (first ∷ chars) = to_ascii_uppercase first ∷ chars

abbrev join_capitalized : List Text → Text
join_capitalized [] = []
join_capitalized (part ∷ parts) = capitalize part ++ join_capitalized parts

unfoldable pub pascal_case : Text → Text
unfolding split_words snake_case
pascal_case s = join_capitalized (split_words (snake_case s))

abbrev pub lowercase : Text → Text
lowercase s = map to_ascii_lowercase s

-- `ends_with`, read from the end, and a text without its last `n` bytes
abbrev begins : Text → Text → Bool
begins s [] = true
begins [] (c ∷ t) = false
begins (d ∷ s) (c ∷ t) = d == c && begins s t

abbrev pub ends_with : Text → Text → Bool
ends_with s t = begins (reverse s) (reverse t)

abbrev without : ℕ → Text → Text
without zero s = s
without (suc n) [] = []
without (suc n) (c ∷ s) = without n s

abbrev pub drop_end : ℕ → Text → Text
drop_end n s = reverse (without n (reverse s))

abbrev pub irregular_plurals : Assoc Text
irregular_plurals =
    (lit "child", lit "children")
    ∷ (lit "person", lit "people")
    ∷ (lit "man", lit "men")
    ∷ (lit "woman", lit "women")
    ∷ (lit "mouse", lit "mice")
    ∷ (lit "foot", lit "feet")
    ∷ (lit "tooth", lit "teeth")
    ∷ []

abbrev pub irregular_singulars : Assoc Text
irregular_singulars =
    (lit "children", lit "child")
    ∷ (lit "people", lit "person")
    ∷ (lit "men", lit "man")
    ∷ (lit "women", lit "woman")
    ∷ (lit "mice", lit "mouse")
    ∷ (lit "feet", lit "foot")
    ∷ (lit "teeth", lit "tooth")
    ∷ []

-- the byte before the last is a vowel, where `from_end` is the text from its end
abbrev vowel_before_last : Text → Bool
vowel_before_last (last ∷ (prev ∷ from_end)) =
    prev == b'a' || prev == b'e' || prev == b'i' || prev == b'o' || prev == b'u'
vowel_before_last _ = false

unfoldable pub regular_plural : Text → Text → Text
regular_plural lower s =
    if ends_with lower (lit "is") && ltb 2 (length lower)
    then drop_end 2 s ++ lit "es"
    else if ends_with lower (lit "s")
        || ends_with lower (lit "x")
        || ends_with lower (lit "z")
        || ends_with lower (lit "ch")
        || ends_with lower (lit "sh")
    then s ++ lit "es"
    else if ends_with lower (lit "y")
        && ltb 1 (length lower)
        && not (vowel_before_last (reverse lower))
    then drop_end 1 s ++ lit "ies"
    else if ends_with lower (lit "fe")
    then drop_end 2 s ++ lit "ves"
    else if ends_with lower (lit "f")
        && not (ends_with lower (lit "ff"))
        && not (ends_with lower (lit "roof"))
        && not (ends_with lower (lit "chief"))
    then drop_end 1 s ++ lit "ves"
    else if ends_with lower (lit "is") && ltb 2 (length lower)
    then drop_end 2 s ++ lit "es"
    else s ++ lit "s"

abbrev pub or_regular : Option Text → Text → Text
or_regular (some rep) regular = rep
or_regular none regular = regular

unfoldable pub pluralize : Text → Text
pluralize s =
    if is_empty s
    then s
    else or_regular (lookup (lowercase s) irregular_plurals) (regular_plural (lowercase s) s)

unfoldable pub regular_singular : Text → Text → Text
regular_singular lower s =
    if ends_with lower (lit "ies") && ltb 3 (length s)
    then drop_end 3 s ++ lit "y"
    else if ends_with lower (lit "ves") && ltb 3 (length s)
    then drop_end 3 s ++ lit "f"
    else if ends_with lower (lit "ches") || ends_with lower (lit "shes")
    then drop_end 2 s
    else if (ends_with lower (lit "ses")
          || ends_with lower (lit "xes")
          || ends_with lower (lit "zes"))
        && ltb 3 (length s)
    then drop_end 2 s
    else if ends_with lower (lit "s") && not (ends_with lower (lit "ss")) && ltb 1 (length s)
    then drop_end 1 s
    else s

unfoldable pub singularize : Text → Text
singularize s =
    or_regular (lookup (lowercase s) irregular_singulars) (regular_singular (lowercase s) s)
