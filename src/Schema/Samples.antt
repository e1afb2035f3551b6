-- ===== src/Schema/Samples.antt =====
-- Attributes and schemas that the tests of the crate share. A JSON value is its text.
use ferris_cms.Prelude.{true, false, none, some, [], Text, lit, Assoc}
use ferris_cms.Domain.Field.{FieldType, integer}
use ferris_cms.Domain.Kind.{collection_type}
use ferris_cms.Schema.Model.{Attribute, Schema}

abbrev pub attribute : FieldType → Attribute Text
attribute t = record {
  attr_type = t;
  required = false;
  unique = false;
  private = false;
  configurable = none;
  default = none;
  plugin_options = none;
  min = none;
  max = none;
  min_length = none;
  max_length = none;
  regex = none;
  enum_values = [];
  enum_name = none;
  target_field = none;
  relation = none;
  target = none;
  inversed_by = none;
  mapped_by = none;
  component = none;
  repeatable = none;
  components = [];
  multiple = none;
  allowed_types = [];
  visible_when = none;
  computed = false;
  expression = none;
  stored = none;
  dependencies = [];
}

abbrev pub schema : Text → Assoc (Attribute Text) → Schema Text
schema uid attributes = record {
  uid = uid;
  kind = collection_type;
  collection_name = none;
  info = record {
    singular_name = lit "a";
    plural_name = lit "as";
    display_name = lit "A";
    description = none;
    icon = none;
  };
  options = record { draft_and_publish = false; comment = none };
  plugin_options = none;
  attributes = attributes;
}

abbrev pub formula : Text → Attribute Text
formula expression = record (attribute integer) { computed = true; expression = some expression }
