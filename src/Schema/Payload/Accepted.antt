-- ===== src/Schema/Payload/Accepted.antt =====
-- When an entry is accepted.
use ferris_cms.Prelude.{ℕ, ◌≡◌, ◌⊎◌, Bool, true, false, not, Option, some, [], Text, In}
use ferris_cms.Prelude.Int.{pos, lt_int}
use ferris_cms.Domain.Field.{
  FieldType, string, text, richtext, integer, biginteger, decimal, float, email, password,
  enumeration, uid, media, component,
}
use ferris_cms.Schema.Model.{Attribute, Schema}
use ferris_cms.Schema.Payload.{
  Json, Std, or_false, is_null, as_text, array_length, type_ok, json_f64, json_i64, and_then,
  value_f64, blank, is_present,
}
use ferris_cms.Schema.Payload.Rules.{Limit, Part}

-- which constraints a type has
pub data Bound : Type 0 where
  by_value by_text by_choice by_count by_selection nothing : Bound

abbrev pub bound_of : FieldType → Bound
bound_of integer = by_value
bound_of biginteger = by_value
bound_of decimal = by_value
bound_of float = by_value
bound_of string = by_text
bound_of text = by_text
bound_of richtext = by_text
bound_of email = by_text
bound_of password = by_text
bound_of uid = by_text
bound_of enumeration = by_choice
bound_of component = by_count
bound_of media = by_selection
bound_of _ = nothing

module _ {N F : Type 0} (std : Std N F) (attr : Attribute (Json N)) where
  open std use {lt, chars, regex}

  pub IsCounted : ℕ → Type 0
  IsCounted n =
      Limit (and_then attr.min (json_i64 std)) (λ min. lt_int (pos n) min)
      × Limit (and_then attr.max (json_i64 std)) (λ max. lt_int max (pos n))

  -- the constraints on a value that is not null
  pub IsWithin : Bound → Json N → Type 0
  IsWithin by_value v = Part (value_f64 std v) λ num.
      Limit (and_then attr.min (json_f64 std)) (λ min. lt num min)
      × Limit (and_then attr.max (json_f64 std)) (λ max. lt max num)
  IsWithin by_text v = Part (as_text v) λ s.
      Limit attr.min_length (λ n. lt_int (pos (chars s)) n)
      × (Limit attr.max_length (λ n. lt_int n (pos (chars s)))
          × Limit (and_then attr.regex regex) (λ matches. not (matches s)))
  IsWithin by_choice v = Part (as_text v) λ s. (attr.enum_values ≡ []) ⊎ In s attr.enum_values
  IsWithin by_count v = or_false attr.repeatable ≡ true → Part (array_length v) IsCounted
  IsWithin by_selection v = or_false attr.multiple ≡ true → Part (array_length v) IsCounted
  IsWithin nothing v = Unit

module _ {N F : Type 0} (std : Std N F) (attr : Attribute (Json N)) (name : Text) where
  open std use {lt, chars, regex}

  -- a value that is not null has the type of the field, and is within its constraints
  pub IsSound : Option (Json N) → Type 0
  IsSound value =
      (v : Json N)
      → value ≡ some v
      → is_null v ≡ false
      → (type_ok std attr.attr_type v ≡ true) × IsWithin std attr (bound_of attr.attr_type) v

  -- A value of a field is accepted: a computed field is written only if it has a relation aggregate,
  -- a required one is given and is not blank, and its value is sound.
  pub record IsAccepted (formula enforce_required : Bool) (value : Option (Json N)) : Type 0 where
    pub writable : attr.computed ≡ true → is_present std value ≡ true → formula ≡ true
    pub given :
        attr.required ≡ true
        → enforce_required ≡ true
        → (is_present std value ≡ true) × (blank std value ≡ false)
    pub sound : IsSound value
