-- ===== src/Schema/Model.antt =====
-- crates/core-schema/src/model.rs: schemas and their attributes. `V` is the type of JSON values;
-- its equality, on which the derived equality of an attribute rests, is decidable.
use native.Mathlib.Decide.{ℕ_discrete}
use mathlib.Core.Bool.{decide}
use ferris_cms.Prelude.{
  Bool, true, false, not, ◌&&◌, Option, none, some, List, [], ◌∷◌, Text, lit, Assoc, lookup,
  if◌then◌else◌,
}
use ferris_cms.Prelude.Int.{ℤ}
use ferris_cms.Domain.Uid.{Uid, component_category, last_segment}
use ferris_cms.Domain.Kind.{
  ContentTypeKind, collection_type, single_type, component, RelationKind, RelationKind-discrete,
}
use ferris_cms.Domain.Field.{FieldType, FieldType-discrete}
use ferris_cms.Domain.Naming.{collection_table, single_table, component_table}

pub data FieldConditionOperator : Type 0 where
  is is_not : FieldConditionOperator

pub record FieldCondition (V : Type 0) : Type 0 where
  pub field : Text
  pub operator : FieldConditionOperator
  pub value : V

pub record I18nOptions : Type 0 where
  pub localized : Bool

pub record SchemaPluginOptions : Type 0 where
  pub i18n : Option I18nOptions

pub record Attribute (V : Type 0) : Type 0 where
  pub attr_type : FieldType
  pub required : Bool
  pub unique : Bool
  pub private : Bool
  pub configurable : Option Bool
  pub default : Option V
  pub plugin_options : Option SchemaPluginOptions
  pub min : Option V
  pub max : Option V
  pub min_length : Option ℤ
  pub max_length : Option ℤ
  pub regex : Option Text
  pub enum_values : List Text
  pub enum_name : Option Text
  pub target_field : Option Text
  pub relation : Option RelationKind
  pub target : Option Uid
  pub inversed_by : Option Text
  pub mapped_by : Option Text
  pub component : Option Uid
  pub repeatable : Option Bool
  pub components : List Uid
  pub multiple : Option Bool
  pub allowed_types : List Text
  pub visible_when : Option (FieldCondition V)
  pub computed : Bool
  pub expression : Option Text
  pub stored : Option Bool
  pub dependencies : List Text

unfoldable pub Text-discrete : Discrete Text
Text-discrete = hlevel ℕ_discrete

module _ {V : Type 0} (V-discrete : Discrete V) where
  unfoldable pub Attribute-discrete : Discrete (Attribute V)
  Attribute-discrete =
      hlevel (V-discrete, ℕ_discrete, FieldType-discrete, RelationKind-discrete, Text-discrete)

  -- `FieldConditionOperator::matches`
  unfoldable pub matches : FieldConditionOperator → V → V → Bool
  matches is actual expected = decide (V-discrete actual expected)
  matches is_not actual expected = not (decide (V-discrete actual expected))

  -- A field without a rule is visible; a missing trigger counts as the JSON null.
  unfoldable pub is_visible : V → Attribute V → Assoc V → Bool
  unfolding matches
  is_visible null attr form = elim attr.visible_when [
    | none ↦ true
    | some cond ↦
        matches cond.operator (elim (lookup cond.field form) [ some v ↦ v | none ↦ null ])
          cond.value
  ]

abbrev localized_of : Option SchemaPluginOptions → Bool
localized_of none = false
localized_of (some p) = elim p.i18n [ some i ↦ i.localized | none ↦ false ]

-- `Attribute::is_stored`
unfoldable pub is_stored : {V : Type 0} → Attribute V → Bool
is_stored attr = elim attr.stored [ some b ↦ b | none ↦ true ]

abbrev computed_type : FieldType → Bool
computed_type FieldType.integer = true
computed_type FieldType.biginteger = true
computed_type FieldType.decimal = true
computed_type FieldType.float = true
computed_type FieldType.string = true
computed_type FieldType.text = true
computed_type FieldType.boolean = true
computed_type FieldType.date = true
computed_type FieldType.datetime = true
computed_type _ = false

unfoldable pub supports_computed : {V : Type 0} → Attribute V → Bool
supports_computed attr = computed_type attr.attr_type

pub data SqlFamily : Type 0 where
  var_char text json integer big_int decimal double date timestamp time bool media_link
        relation_link component_link :
      SqlFamily

unfoldable pub SqlFamily-discrete : Discrete SqlFamily
SqlFamily-discrete = hlevel

abbrev pub family_of : FieldType → SqlFamily
family_of FieldType.string = var_char
family_of FieldType.email = var_char
family_of FieldType.password = var_char
family_of FieldType.uid = var_char
family_of FieldType.enumeration = var_char
family_of FieldType.text = text
family_of FieldType.richtext = text
family_of FieldType.blocks = json
family_of FieldType.json = json
family_of FieldType.integer = integer
family_of FieldType.biginteger = big_int
family_of FieldType.decimal = decimal
family_of FieldType.float = double
family_of FieldType.date = date
family_of FieldType.datetime = timestamp
family_of FieldType.time = time
family_of FieldType.boolean = bool
family_of FieldType.media = media_link
family_of FieldType.relation = relation_link
family_of FieldType.component = component_link
family_of FieldType.dynamiczone = component_link

unfoldable pub sql_family : {V : Type 0} → Attribute V → SqlFamily
sql_family attr = family_of attr.attr_type

pub record SchemaInfo : Type 0 where
  pub singular_name : Text
  pub plural_name : Text
  pub display_name : Text
  pub description : Option Text
  pub icon : Option Text

pub record SchemaOptions : Type 0 where
  pub draft_and_publish : Bool
  pub comment : Option Text

-- The labels and annotations of `metadata` are left out: no operation of the model reads them.
pub record Schema (V : Type 0) : Type 0 where
  pub uid : Uid
  pub kind : ContentTypeKind
  pub collection_name : Option Text
  pub info : SchemaInfo
  pub options : SchemaOptions
  pub plugin_options : Option SchemaPluginOptions
  pub attributes : Assoc (Attribute V)

abbrev stringish : FieldType → Bool
stringish FieldType.string = true
stringish FieldType.uid = true
stringish FieldType.email = true
stringish FieldType.text = true
stringish _ = false

module _ {V : Type 0} where
  unfoldable pub is_localized : Schema V → Bool
  is_localized schema = localized_of schema.plugin_options

  unfoldable pub draft_and_publish : Schema V → Bool
  draft_and_publish schema = schema.options.draft_and_publish

  abbrev default_table : ContentTypeKind → Schema V → Text
  default_table collection_type schema = collection_table schema.info.plural_name
  default_table single_type schema = single_table schema.info.singular_name
  default_table component schema =
      component_table (elim (component_category schema.uid) [ some c ↦ c | none ↦ lit "default" ])
        (last_segment schema.uid)

  unfoldable pub default_table_name : Schema V → Text
  default_table_name schema = default_table schema.kind schema

  unfoldable pub table_name : Schema V → Text
  unfolding default_table_name
  table_name schema = elim schema.collection_name [
    | some name ↦ name
    | none ↦ default_table_name schema
  ]

  -- the first attribute that passes a test
  unfoldable pub find_attribute : (Attribute V → Bool) → Assoc (Attribute V) → Option Text
  find_attribute p [] = none
  find_attribute p ((n, a) ∷ attrs) = if p a then some n else find_attribute p attrs

  unfoldable pub main_field : Schema V → Text
  unfolding find_attribute
  main_field schema =
      elim (find_attribute (λ a. a.required && stringish a.attr_type) schema.attributes) [
        | some n ↦ n
        | none ↦ elim (find_attribute (λ a. stringish a.attr_type) schema.attributes) [
          | some n ↦ n
          | none ↦ lit "id"
        ]
      ]
