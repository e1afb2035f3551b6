-- ===== src/Schema/Validation/Enumeration.antt =====
-- crates/core-schema/src/validation.rs: the values of an enumeration.
use ferris_cms.Prelude.{
  ℕ, ◌≡◌, ◌≢◌, refl, ◌↔◌, inl, inr, Bool, true, false, not, ◌&&◌, ◌||◌, List, [], ◌∷◌, ◌++◌,
  is_empty, Text, lit, contains, contains_iff, ◌==◌, In, Nodup, All, arith, Bool-cases,
  if◌then◌else◌,
}
use ferris_cms.Domain.Naming.{is_ascii_uppercase, is_ascii_lowercase, is_ascii_digit}
use ferris_cms.Schema.Model.{Attribute}
use ferris_cms.Schema.Validation.{FieldError, error, when}
use ferris_cms.Schema.Validation.Relations.{append-empty_iff}

abbrev is_ascii_letter : ℕ → Bool
is_ascii_letter c = is_ascii_uppercase c || is_ascii_lowercase c

unfoldable pub identifier_rest : Text → Bool
identifier_rest [] = true
identifier_rest (c ∷ s) = (is_ascii_letter c || is_ascii_digit c || c == b'_') && identifier_rest s

-- `^[a-zA-Z][a-zA-Z0-9_]*$`
unfoldable pub is_identifier : Text → Bool
unfolding identifier_rest
is_identifier [] = false
is_identifier (c ∷ s) = is_ascii_letter c && identifier_rest s

abbrev value_errors : Text → Text → List FieldError
value_errors path value =
    if is_empty value
    then error path (lit "empty-enum-value")
    else when (not (is_identifier value)) (error path (lit "invalid-enum-value"))

-- the loop over the values; `seen` is the set of those before
unfoldable pub enum_loop : Text → List Text → List Text → List FieldError
unfolding is_identifier contains
enum_loop path seen [] = []
enum_loop path seen (v ∷ values) =
    value_errors path v
    ++ (when (contains seen v) (error path (lit "duplicate-enum-value"))
        ++ enum_loop path (if contains seen v then seen else v ∷ seen) values)

unfoldable pub validate_enumeration : {V : Type 0} → Text → Attribute V → List FieldError
unfolding enum_loop
validate_enumeration path attr =
    when (is_empty attr.enum_values) (error (path ++ lit ".enum") (lit "empty-enum"))
    ++ enum_loop (path ++ lit ".enum") [] attr.enum_values

-- an identifier that is not among the values before it
IsFresh : List Text → List Text → Type 0
IsFresh seen values = (x : Text) → In x values → ¬ In x seen

value_errors-empty_iff : (path v : Text) → (value_errors path v ≡ []) ↔ (is_identifier v ≡ true)
unfolding is_identifier
value_errors-empty_iff path [] = ground arith
value_errors-empty_iff path (c ∷ v) = ground arith

enum_loop-empty_iff :
    (path : Text) (seen values : List Text)
    → (enum_loop path seen values ≡ [])
      ↔ (Nodup values × IsFresh seen values × All (λ v. is_identifier v ≡ true) values)
unfolding enum_loop IsFresh
enum_loop-empty_iff path seen [] = (λ h. (tt, (λ x m. absurd m), tt), λ h. refl)
enum_loop-empty_iff path seen (v ∷ values) =
    let repeated = when (contains seen v) (error path (lit "duplicate-enum-value")) in
    let rest = enum_loop path (if contains seen v then seen else v ∷ seen) values in
    let both = append-empty_iff (value_errors path v) (repeated ++ rest) in
    let second = append-empty_iff repeated rest in
    let later = enum_loop-empty_iff path (v ∷ seen) values in
    elim (Bool-cases (contains seen v)) [
      | inl c ↦ (
        λ h. absurd (cc (c, (second.0 (both.0 h).1).0)),
        λ (d, f, i). absurd (f v (inl refl) ((contains_iff seen v).0 c)),
      )
      | inr c ↦ (
        λ h.
            let (d, f, i) = later.0 (cc (c, (second.0 (both.0 h).1).1)) in
            (
              ((λ m. f v m (inl refl)), d),
              (λ x m. elim m [
                | inl e ↦ λ k. absurd (cc (c, (contains_iff seen v).1 (rw (← e) k)))
                | inr l ↦ λ k. f x l (inr k)
              ]),
              ((value_errors-empty_iff path v).0 (both.0 h).0, i),
            ),
        λ (d, f, i). both.1 (
          (value_errors-empty_iff path v).1 i.0,
          second.1 (
            cc c,
            cc (
              c,
              later.1 (
                d.1,
                (λ x m k. elim k [ inl e ↦ d.0 (rw (← e) m) | inr l ↦ f x (inr m) l ]),
                i.1,
              ),
            ),
          ),
        ),
      )
    ]

when-empty :
    (values : List Text) (errors : List FieldError)
    → values ≢ []
    → when (is_empty values) errors ≡ []
when-empty [] errors n = absurd (n refl)
when-empty (v ∷ values) errors n = refl

-- No error is reported for the values of an enumeration exactly when there is one, none stands
-- twice, and each is a letter followed by letters, digits and underscores.
pub validate_enumeration-empty_iff :
    {V : Type 0} (path : Text) (attr : Attribute V)
    → (validate_enumeration path attr ≡ []) ↔ (
        (attr.enum_values ≢ [])
        × Nodup attr.enum_values
        × All (λ v. is_identifier v ≡ true) attr.enum_values)
unfolding validate_enumeration IsFresh
validate_enumeration-empty_iff path attr =
    let empty = when (is_empty attr.enum_values) (error (path ++ lit ".enum") (lit "empty-enum")) in
    let both = append-empty_iff empty (enum_loop (path ++ lit ".enum") [] attr.enum_values) in
    let loop = enum_loop-empty_iff (path ++ lit ".enum") [] attr.enum_values in
    (
      λ h. let (d, f, i) = loop.0 (both.0 h).1 in ((λ e. absurd (cc (e, (both.0 h).0))), d, i),
      λ (n, d, i). both.1 (
        when-empty attr.enum_values (error (path ++ lit ".enum") (lit "empty-enum")) n,
        loop.1 (d, (λ x m k. absurd k), i),
      ),
    )
