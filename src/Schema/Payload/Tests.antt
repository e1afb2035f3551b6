-- ===== src/Schema/Payload/Tests.antt =====
-- Runs of the check of an entry, and the instance of its theorem. Numbers are natural numbers.
use ferris_cms.Prelude.{ℕ, ◌≡◌, refl, true, false, none, some, [], ◌∷◌, length, ltb, lit, Assoc}
use ferris_cms.Prelude.Int.{pos}
use ferris_cms.Domain.Field.{FieldType, string, integer}
use ferris_cms.Domain.Kind.{collection_type}
use ferris_cms.Schema.Model.{Attribute, Schema}
use ferris_cms.Schema.Payload.{Json, null, number, str, Std, validate_payload}

abbrev std : Std ℕ ℕ
std = record {
  trim = λ t. t;
  to_lowercase = λ t. t;
  chars = λ t. length t;
  parse_f64 = λ t. none;
  as_f64 = λ n. some n;
  as_i64 = λ n. some (pos n);
  lt = ltb;
  regex = λ t. none;
}

abbrev attribute : FieldType → Attribute (Json ℕ)
attribute t = record {
  attr_type = t;
  required = false;
  unique = false;
  private = false;
  configurable = none;
  default = none;
  plugin_options = none;
  min = none;
  max = none;
  min_length = none;
  max_length = none;
  regex = none;
  enum_values = [];
  enum_name = none;
  target_field = none;
  relation = none;
  target = none;
  inversed_by = none;
  mapped_by = none;
  component = none;
  repeatable = none;
  components = [];
  multiple = none;
  allowed_types = [];
  visible_when = none;
  computed = false;
  expression = none;
  stored = none;
  dependencies = [];
}

-- a title of at least three characters, and a quantity up to ten
abbrev title : Attribute (Json ℕ)
title = record (attribute string) { required = true; min_length = some (pos 3) }

abbrev quantity : Attribute (Json ℕ)
quantity = record (attribute integer) { max = some (number 10) }

abbrev product : Schema (Json ℕ)
product = record {
  uid = lit "p";
  kind = collection_type;
  collection_name = none;
  info = record {
    singular_name = lit "p";
    plural_name = lit "ps";
    display_name = lit "P";
    description = none;
    icon = none;
  };
  options = record { draft_and_publish = false; comment = none };
  plugin_options = none;
  attributes = (lit "title", title) ∷ (lit "quantity", quantity) ∷ [];
}

abbrev entry : Assoc (Json ℕ)
entry = (lit "title", str (lit "abc")) ∷ (lit "quantity", number 10) ∷ []

accepted_run : validate_payload std product entry true ≡ []
unfolding validate_payload
accepted_run = refl

refused_run :
    validate_payload std product
      ((lit "title", str (lit "ab")) ∷ (lit "quantity", number 11) ∷ [])
      true
    ≡ record { field = lit "title"; code = lit "minLength" }
      ∷ record { field = lit "quantity"; code = lit "max" }
      ∷ []
unfolding validate_payload
refused_run = refl

-- a required field that is null, and a text for a number
missing_run :
    validate_payload std product ((lit "title", null) ∷ (lit "quantity", str (lit "x")) ∷ []) true
    ≡ record { field = lit "title"; code = lit "required" }
      ∷ record { field = lit "quantity"; code = lit "type" }
      ∷ []
unfolding validate_payload
missing_run = refl
