-- ===== src/Domain/Naming/Plural/Regular.antt =====
-- The words whose plural is regular are found again from it.
use mathlib.Core.List.{reverse_aux, append_assoc}
use ferris_cms.Prelude.{
  ℕ, ◌≡◌, ◌∙◌, ap, refl, sym, ◌⊎◌, inl, inr, true, false, none, [], ◌∷◌, ◌++◌, is_empty, length,
  length-append, Text, lit, ◌==◌, ltb, lookup, arith,
}
use ferris_cms.Domain.Naming.{to_ascii_lowercase}
use ferris_cms.Domain.Naming.Plural.{
  lowercase, irregular_plurals, irregular_singulars, regular_plural, pluralize, regular_singular,
  singularize,
}

reverse_aux-snoc : (s : Text) (c : ℕ) (r : Text) → reverse_aux (s ++ c ∷ []) r ≡ c ∷ reverse_aux s r
reverse_aux-snoc [] c r = refl
reverse_aux-snoc (d ∷ s) c r = reverse_aux-snoc s c (d ∷ r)

reverse_aux_twice : (s r t : Text) → reverse_aux (reverse_aux s r) t ≡ reverse_aux r (s ++ t)
reverse_aux_twice [] r t = refl
reverse_aux_twice (d ∷ s) r t = reverse_aux_twice s (d ∷ r) t

lowercase-snoc :
    (s : Text) (c : ℕ) → lowercase (s ++ c ∷ []) ≡ lowercase s ++ to_ascii_lowercase c ∷ []
lowercase-snoc [] c = refl
lowercase-snoc (d ∷ s) c = ap (λ t. to_ascii_lowercase d ∷ t) (lowercase-snoc s c)

-- No rule for plurals but the last one reads the letter `c` at the end, and no rule for singulars
-- but the last one reads it before an `s`.
abbrev pub EndsPlainly : ℕ → Type 0
EndsPlainly c =
    (c == b's' ≡ false)
    × (c == b'x' ≡ false)
    × (c == b'z' ≡ false)
    × (c == b'h' ≡ false)
    × (c == b'y' ≡ false)
    × (c == b'e' ≡ false)
    × (c == b'f' ≡ false)

lowercase_s : (s : Text) → lowercase s ≡ s → lowercase (s ++ lit "s") ≡ s ++ lit "s"
lowercase_s s h = lowercase-snoc s b's' ∙ ap (λ t. t ++ lit "s") h

pluralize-regular :
    (s : Text)
    → is_empty s ≡ false
    → lowercase s ≡ s
    → lookup s irregular_plurals ≡ none
    → pluralize s ≡ regular_plural s s
unfolding pluralize
pluralize-regular s e l h = rw e (rw (l, h) refl)

singularize-regular :
    (s : Text)
    → lowercase s ≡ s
    → lookup s irregular_singulars ≡ none
    → singularize s ≡ regular_singular s s
unfolding singularize
singularize-regular s l h = rw (l, h) refl

is_empty-snoc : (t : Text) (c : ℕ) → is_empty (t ++ c ∷ []) ≡ false
is_empty-snoc [] c = refl
is_empty-snoc (d ∷ t) c = refl

long : (stem : Text) (c : ℕ) → ltb 1 (length ((stem ++ c ∷ []) ++ lit "s")) ≡ true
long stem c = ground (arith, length-append (stem ++ c ∷ []) (lit "s"), length-append stem (c ∷ []))

-- the same where an `e` comes after the letter `d`
abbrev pub AllowsE : ℕ → Type 0
AllowsE d =
    (d == b's' ≡ false)
    × (d == b'x' ≡ false)
    × (d == b'z' ≡ false)
    × (d == b'h' ≡ false)
    × (d == b'i' ≡ false)
    × (d == b'v' ≡ false)
    × (d == b'f' ≡ false)

module _ (stem : Text) (c : ℕ) (plain : EndsPlainly c) where
  regular_plural-plain :
      regular_plural (stem ++ c ∷ []) (stem ++ c ∷ []) ≡ (stem ++ c ∷ []) ++ lit "s"
  unfolding regular_plural
  regular_plural-plain =
      rw (reverse_aux-snoc stem c [])
        (rw (plain.0, plain.1, plain.2, plain.3, plain.4, plain.5, plain.6) refl)

  regular_singular-plain :
      regular_singular ((stem ++ c ∷ []) ++ lit "s") ((stem ++ c ∷ []) ++ lit "s") ≡ stem ++ c ∷ []
  unfolding regular_singular
  regular_singular-plain =
      rw (reverse_aux-snoc (stem ++ c ∷ []) b's' [], reverse_aux-snoc stem c [])
        (rw (plain.0, plain.5) (rw (long stem c) (reverse_aux_twice stem [] (c ∷ []))))

module _ (stem : Text) (d : ℕ) (allows : AllowsE d) where
  abbrev with_e : Text
  with_e = (stem ++ d ∷ []) ++ b'e' ∷ []

  regular_plural-e : regular_plural with_e with_e ≡ with_e ++ lit "s"
  unfolding regular_plural
  regular_plural-e =
      rw (reverse_aux-snoc (stem ++ d ∷ []) b'e' [], reverse_aux-snoc stem d [])
        (rw (allows.6) refl)

  regular_singular-e : regular_singular (with_e ++ lit "s") (with_e ++ lit "s") ≡ with_e
  unfolding regular_singular
  regular_singular-e =
      rw
        (
          reverse_aux-snoc with_e b's' [],
          reverse_aux-snoc (stem ++ d ∷ []) b'e' [],
          reverse_aux-snoc stem d [],
        )
        (rw (allows.0, allows.1, allows.2, allows.3, allows.4, allows.5)
          (rw (long (stem ++ d ∷ []) b'e') (
            reverse_aux_twice stem [] (d ∷ b'e' ∷ [])
            ∙ sym (append_assoc stem (d ∷ []) (b'e' ∷ [])))))

-- The word ends in a letter that stays as it is, or in an `e` after such a letter.
unfoldable pub IsRegular : Text → Type 0
IsRegular s =
    ((stem : Text) × (c : ℕ) × (s ≡ stem ++ c ∷ []) × EndsPlainly c)
    ⊎ ((stem : Text) × (d : ℕ) × (s ≡ (stem ++ d ∷ []) ++ b'e' ∷ []) × AllowsE d)

-- the rules for both directions
IsRegular-rules :
    (s : Text)
    → IsRegular s
    → (is_empty s ≡ false)
      × (regular_plural s s ≡ s ++ lit "s")
      × (regular_singular (s ++ lit "s") (s ++ lit "s") ≡ s)
unfolding IsRegular
IsRegular-rules s (inl (stem, c, e, p)) =
    rw e (is_empty-snoc stem c, regular_plural-plain stem c p, regular_singular-plain stem c p)
IsRegular-rules s (inr (stem, d, e, p)) =
    rw e
      (is_empty-snoc (stem ++ d ∷ []) b'e', regular_plural-e stem d p, regular_singular-e stem d p)

-- A regular word in lowercase letters is the singular of its plural, unless the word has an irregular
-- plural or the word with an `s` is one.
pub singularize-pluralize :
    (s : Text)
    → IsRegular s
    → lowercase s ≡ s
    → lookup s irregular_plurals ≡ none
    → lookup (s ++ lit "s") irregular_singulars ≡ none
    → singularize (pluralize s) ≡ s
singularize-pluralize s r lower regular kept =
    let (e, plural, singular) = IsRegular-rules s r in
    ap singularize (pluralize-regular s e lower regular ∙ plural)
    ∙ singularize-regular (s ++ lit "s") (lowercase_s s lower) kept
    ∙ singular
