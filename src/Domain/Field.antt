-- ===== src/Domain/Field.antt =====
-- crates/core-domain/src/types.rs: the types of a field and their wire names.
use ferris_cms.Prelude.{
  ◌≡◌, refl, ◌↔◌, Bool, true, false, Option, none, some, List, [], ◌∷◌, Text, lit, text_eq,
  text_eq_iff, if◌then◌else◌, arith,
}

pub data FieldType : Type 0 where
  string text richtext blocks integer biginteger decimal float date datetime time boolean email
        password enumeration json uid media relation component dynamiczone :
      FieldType

abbrev pub all_field_types : List FieldType
all_field_types =
    FieldType.string ∷ text ∷ richtext ∷ blocks ∷ integer ∷ biginteger ∷ decimal ∷ float ∷ date
    ∷ datetime ∷ time ∷ boolean ∷ email ∷ password ∷ enumeration ∷ json ∷ uid ∷ media ∷ relation
    ∷ FieldType.component ∷ dynamiczone ∷ []

unfoldable pub as_str : FieldType → Text
as_str string = lit "string"
as_str text = lit "text"
as_str richtext = lit "richtext"
as_str blocks = lit "blocks"
as_str integer = lit "integer"
as_str biginteger = lit "biginteger"
as_str decimal = lit "decimal"
as_str float = lit "float"
as_str date = lit "date"
as_str datetime = lit "datetime"
as_str time = lit "time"
as_str boolean = lit "boolean"
as_str email = lit "email"
as_str password = lit "password"
as_str enumeration = lit "enumeration"
as_str json = lit "json"
as_str uid = lit "uid"
as_str media = lit "media"
as_str relation = lit "relation"
as_str component = lit "component"
as_str dynamiczone = lit "dynamiczone"

unfoldable pub find_type : Text → List FieldType → Option FieldType
find_type s [] = none
find_type s (t ∷ ts) = if text_eq (as_str t) s then some t else find_type s ts

unfoldable pub parse : Text → Option FieldType
unfolding find_type as_str text_eq
parse s = find_type s all_field_types

unfoldable pub is_scalar_column : FieldType → Bool
is_scalar_column media = false
is_scalar_column relation = false
is_scalar_column component = false
is_scalar_column dynamiczone = false
is_scalar_column _ = true

unfoldable pub FieldType-discrete : Discrete FieldType
FieldType-discrete = hlevel

find_type-eq-some :
    (s : Text) (ts : List FieldType) (t : FieldType) → find_type s ts ≡ some t → as_str t ≡ s
unfolding find_type
find_type-eq-some s [] t h = cc
find_type-eq-some s (u ∷ ts) t h =
    ground (arith, text_eq_iff (as_str u) s, find_type-eq-some s ts t)

parse-as_str : (t : FieldType) → parse (as_str t) ≡ some t
unfolding parse
parse-as_str string = refl
parse-as_str _ = refl

-- A field type is read back from its wire name, and no other text is read as it.
pub parse-eq-some_iff : (s : Text) (t : FieldType) → (parse s ≡ some t) ↔ (as_str t ≡ s)
parse-eq-some_iff s t =
    (λ h. find_type-eq-some s all_field_types t (unfold parse in h), λ e. rw (← e) (parse-as_str t))
