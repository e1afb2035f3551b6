-- ===== src/Schema/Payload.antt =====
-- crates/core-schema/src/payload.rs: the check of an entry's values. `N` is the type of JSON numbers
-- and `F` the type `f64`. An error keeps its field and its code.
pub mod Rules
pub mod Accepted
mod Tests
use ferris_cms.Prelude.{
  ℕ, suc, Bool, true, false, not, ◌&&◌, ◌||◌, Option, none, some, List, [], ◌∷◌, ◌++◌, is_empty,
  length, Text, lit, text_eq, contains, Assoc, lookup, if◌then◌else◌,
}
use ferris_cms.Prelude.Int.{ℤ, pos, lt_int}
use ferris_cms.Domain.Field.{
  FieldType, string, text, richtext, blocks, integer, biginteger, decimal, float, date, datetime,
  time, boolean, email, password, enumeration, json, uid, media, relation, component, dynamiczone,
}
use ferris_cms.Schema.Model.{Attribute, Schema}
use ferris_cms.Schema.Aggregates.{computed_field_has_relation_aggregate}

mutual
  pub data Json (N : Type 0) : Type 0 where
    null : Json N
    bool : Bool → Json N
    number : N → Json N
    str : Text → Json N
    array : Items N → Json N
    object : Fields N → Json N

  pub data Items (N : Type 0) : Type 0 where
    nil : Items N
    cons : Json N → Items N → Items N

  pub data Fields (N : Type 0) : Type 0 where
    end : Fields N
    field : Text → Json N → Fields N → Fields N

pub record PayloadError : Type 0 where
  pub field : Text
  pub code : Text

-- What the check uses of the standard library, of serde_json and of the crate regex.
pub record Std (N F : Type 0) : Type 0 where
  pub trim : Text → Text
  pub to_lowercase : Text → Text
  -- `chars().count()`
  pub chars : Text → ℕ
  pub parse_f64 : Text → Option F
  pub as_f64 : N → Option F
  pub as_i64 : N → Option ℤ
  pub lt : F → F → Bool
  -- `Regex::new(re).ok()`, and its `is_match`
  pub regex : Text → Option (Text → Bool)

abbrev pub failure : Text → Text → List PayloadError
failure name code = record { field = name; code = code } ∷ []

-- the error of a rule, if it is broken
abbrev pub rule_error : Bool → Text → Text → List PayloadError
rule_error b name code = if b then failure name code else []

abbrev pub and_then : {A B : Type 0} → Option A → (A → Option B) → Option B
and_then none f = none
and_then (some a) f = f a

-- a bound that is given, and broken
abbrev pub breaks : {A : Type 0} → Option A → (A → Bool) → Bool
breaks none f = false
breaks (some a) f = f a

-- the errors of a part of the value, if it has the part
abbrev pub of_part : {A : Type 0} → Option A → (A → List PayloadError) → List PayloadError
of_part none f = []
of_part (some a) f = f a

abbrev pub or_false : Option Bool → Bool
or_false none = false
or_false (some b) = b

module _ {N : Type 0} where
  abbrev pub is_null : Json N → Bool
  is_null null = true
  is_null _ = false

  abbrev pub is_bool : Json N → Bool
  is_bool (bool _) = true
  is_bool _ = false

  abbrev pub is_number : Json N → Bool
  is_number (number _) = true
  is_number _ = false

  abbrev pub is_string : Json N → Bool
  is_string (str _) = true
  is_string _ = false

  abbrev pub is_array : Json N → Bool
  is_array (array _) = true
  is_array _ = false

  abbrev pub is_object : Json N → Bool
  is_object (object _) = true
  is_object _ = false

  abbrev pub as_text : Json N → Option Text
  as_text (str s) = some s
  as_text _ = none

  abbrev pub count : Items N → ℕ
  count nil = 0
  count (cons _ items) = suc (count items)

  -- `as_array().len()`
  abbrev pub array_length : Json N → Option ℕ
  array_length (array items) = some (count items)
  array_length _ = none

module _ {N F : Type 0} (std : Std N F) where
  open std use {trim, to_lowercase, chars, parse_f64, as_f64, as_i64, lt, regex}

  abbrev has_value : {A : Type 0} → Option A → Bool
  has_value none = false
  has_value (some _) = true

  abbrev numeric_text : Option Text → Bool
  numeric_text none = false
  numeric_text (some s) = has_value (parse_f64 (trim s))

  abbrev bool_words : List Text
  bool_words = lit "true" ∷ lit "false" ∷ lit "1" ∷ lit "0" ∷ lit "yes" ∷ lit "no" ∷ []

  abbrev bool_text : Option Text → Bool
  bool_text none = false
  bool_text (some s) = contains bool_words (to_lowercase (trim s))

  abbrev number_ok : Json N → Bool
  number_ok v = is_number v || numeric_text (as_text v)

  unfoldable pub type_ok : FieldType → Json N → Bool
  unfolding contains text_eq
  type_ok integer v = number_ok v
  type_ok biginteger v = number_ok v
  type_ok decimal v = number_ok v
  type_ok float v = number_ok v
  type_ok boolean v = is_bool v || bool_text (as_text v)
  type_ok string v = is_string v
  type_ok text v = is_string v
  type_ok richtext v = is_string v
  type_ok email v = is_string v
  type_ok password v = is_string v
  type_ok uid v = is_string v
  type_ok enumeration v = is_string v
  type_ok date v = is_string v
  type_ok datetime v = is_string v
  type_ok time v = is_string v
  type_ok json v = is_object v || is_array v
  type_ok blocks v = is_object v || is_array v
  type_ok media v = is_array v || is_object v || is_number v
  type_ok relation v = is_number v || is_object v || is_array v
  type_ok component v = is_object v || is_array v
  type_ok dynamiczone v = is_array v

  -- `Value::as_f64` and `Value::as_i64`
  abbrev pub json_f64 : Json N → Option F
  json_f64 (number n) = as_f64 n
  json_f64 _ = none

  abbrev pub json_i64 : Json N → Option ℤ
  json_i64 (number n) = as_i64 n
  json_i64 _ = none

  -- `as_f64` of the source
  abbrev pub value_f64 : Json N → Option F
  value_f64 v = elim (json_f64 v) [
    | some f ↦ some f
    | none ↦ and_then (as_text v) (λ s. parse_f64 (trim s))
  ]

  unfoldable pub number_errors : Attribute (Json N) → Text → F → List PayloadError
  number_errors attr name num =
      rule_error (breaks (and_then attr.min json_f64) (λ min. lt num min)) name (lit "min")
      ++ rule_error (breaks (and_then attr.max json_f64) (λ max. lt max num)) name (lit "max")

  unfoldable pub text_errors : Attribute (Json N) → Text → Text → List PayloadError
  text_errors attr name s =
      rule_error (breaks attr.min_length (λ n. lt_int (pos (chars s)) n)) name (lit "minLength")
      ++ (rule_error (breaks attr.max_length (λ n. lt_int n (pos (chars s)))) name (lit "maxLength")
          ++ rule_error (breaks (and_then attr.regex regex) (λ matches. not (matches s))) name
              (lit "regex"))

  unfoldable pub enum_errors : Attribute (Json N) → Text → Text → List PayloadError
  unfolding contains
  enum_errors attr name s =
      rule_error (not (is_empty attr.enum_values) && not (contains attr.enum_values s)) name
        (lit "enum")

  unfoldable pub count_check : Attribute (Json N) → Text → ℕ → List PayloadError
  count_check attr name n =
      rule_error (breaks (and_then attr.min json_i64) (λ min. lt_int (pos n) min)) name (lit "min")
      ++ rule_error (breaks (and_then attr.max json_i64) (λ max. lt_int max (pos n))) name
          (lit "max")

  unfoldable pub constraint_errors :
      FieldType → Attribute (Json N) → Text → Json N → List PayloadError
  unfolding number_errors text_errors enum_errors count_check
  constraint_errors integer attr name v = of_part (value_f64 v) (number_errors attr name)
  constraint_errors biginteger attr name v = of_part (value_f64 v) (number_errors attr name)
  constraint_errors decimal attr name v = of_part (value_f64 v) (number_errors attr name)
  constraint_errors float attr name v = of_part (value_f64 v) (number_errors attr name)
  constraint_errors string attr name v = of_part (as_text v) (text_errors attr name)
  constraint_errors text attr name v = of_part (as_text v) (text_errors attr name)
  constraint_errors richtext attr name v = of_part (as_text v) (text_errors attr name)
  constraint_errors email attr name v = of_part (as_text v) (text_errors attr name)
  constraint_errors password attr name v = of_part (as_text v) (text_errors attr name)
  constraint_errors uid attr name v = of_part (as_text v) (text_errors attr name)
  constraint_errors enumeration attr name v = of_part (as_text v) (enum_errors attr name)
  constraint_errors component attr name v =
      if or_false attr.repeatable then of_part (array_length v) (count_check attr name) else []
  constraint_errors media attr name v =
      if or_false attr.multiple then of_part (array_length v) (count_check attr name) else []
  constraint_errors _ attr name v = []

  unfoldable pub validate_constraints : Attribute (Json N) → Text → Json N → List PayloadError
  unfolding constraint_errors
  validate_constraints attr name v = constraint_errors attr.attr_type attr name v

  abbrev pub blank : Option (Json N) → Bool
  blank (some (str s)) = is_empty (trim s)
  blank _ = false

  -- `obj.get(name)` is there and not null
  abbrev pub is_present : Option (Json N) → Bool
  is_present none = false
  is_present (some v) = not (is_null v)

  unfoldable pub present_errors : Attribute (Json N) → Text → Option (Json N) → List PayloadError
  unfolding type_ok validate_constraints
  present_errors attr name none = []
  present_errors attr name (some v) =
      if is_null v
      then []
      else if not (type_ok attr.attr_type v)
      then failure name (lit "type")
      else validate_constraints attr name v

  -- one round of the loop; `formula` says that the field has a relation aggregate
  unfoldable pub field_errors :
      Bool → Bool → Text → Attribute (Json N) → Option (Json N) → List PayloadError
  unfolding present_errors
  field_errors formula enforce_required name attr value =
      if attr.computed && is_present value && not formula
      then failure name (lit "computed")
      else if attr.required && enforce_required && not (is_present value)
      then failure name (lit "required")
      else if attr.required && enforce_required && blank value
      then failure name (lit "required")
      else present_errors attr name value

  -- the loop over the attributes; `formula` says which fields have a relation aggregate
  unfoldable pub fields_errors :
      (Text → Bool) → Bool → Assoc (Json N) → Assoc (Attribute (Json N)) → List PayloadError
  unfolding field_errors lookup
  fields_errors formula enforce_required obj [] = []
  fields_errors formula enforce_required obj ((name, attr) ∷ attributes) =
      field_errors (formula name) enforce_required name attr (lookup name obj)
      ++ fields_errors formula enforce_required obj attributes

  unfoldable pub validate_payload : Schema (Json N) → Assoc (Json N) → Bool → List PayloadError
  unfolding fields_errors computed_field_has_relation_aggregate
  validate_payload schema obj enforce_required =
      fields_errors (computed_field_has_relation_aggregate parse_f64 schema) enforce_required obj
        schema.attributes
