-- ===== src/Schema/Diff.antt =====
-- crates/core-schema/src/diff.rs: what changes from one schema to another.
pub mod Attributes
pub mod Patch
pub mod Registry
use mathlib.Core.Bool.{decide}
use ferris_cms.Prelude.{
  ℕ, ◌≡◌, Bool, true, false, not, ◌&&◌, ◌||◌, Option, none, some, List, [], ◌∷◌, ◌++◌, is_empty,
  any, Text, lit, text_eq, contains, Assoc, keys, lookup, if◌then◌else◌,
}
use ferris_cms.Domain.Uid.{Uid}
use ferris_cms.Domain.Kind.{ContentTypeKind-discrete}
use ferris_cms.Schema.Model.{
  Attribute, Attribute-discrete, SqlFamily-discrete, Text-discrete, sql_family, Schema, table_name,
  draft_and_publish, is_localized,
}

pub data DiffKind : Type 0 where
  created updated removed unchanged : DiffKind

pub record AttrChange (V : Type 0) : Type 0 where
  pub name : Text
  pub from : Attribute V
  pub to : Attribute V
  pub compatible : Bool

pub record SchemaDiff (V : Type 0) : Type 0 where
  pub uid : Uid
  pub table : Text
  pub kind : DiffKind
  pub added_attrs : Assoc (Attribute V)
  pub removed_attrs : List Text
  pub changed_attrs : List (AttrChange V)
  pub desired : Option (Schema V)

abbrev noop_kind : DiffKind → Bool → Bool
noop_kind unchanged lists = true
noop_kind updated lists = lists
noop_kind created lists = false
noop_kind removed lists = false

abbrev bool_eq : Bool → Bool → Bool
bool_eq true b = b
bool_eq false b = not b

abbrev option_bool_eq : Option Bool → Option Bool → Bool
option_bool_eq none none = true
option_bool_eq (some a) (some b) = bool_eq a b
option_bool_eq none (some _) = false
option_bool_eq (some _) none = false

abbrev option_text_eq : Option Text → Option Text → Bool
option_text_eq none none = true
option_text_eq (some a) (some b) = text_eq a b
option_text_eq none (some _) = false
option_text_eq (some _) none = false

module _ {V : Type 0} where
  unfoldable pub is_noop : SchemaDiff V → Bool
  is_noop d =
      noop_kind d.kind
        (is_empty d.added_attrs && is_empty d.removed_attrs && is_empty d.changed_attrs)

  unfoldable pub compatible_change : Attribute V → Attribute V → Bool
  compatible_change prev attr =
      decide (SqlFamily-discrete (sql_family prev) (sql_family attr))
      && bool_eq prev.computed attr.computed
      && option_text_eq prev.expression attr.expression
      && option_bool_eq prev.stored attr.stored

  -- the names of the current attributes that are not desired
  unfoldable pub removed_of : Assoc (Attribute V) → Assoc (Attribute V) → List Text
  removed_of desired [] = []
  removed_of desired ((name, _) ∷ current) =
      let rest = removed_of desired current in
      if contains (keys desired) name then rest else name ∷ rest

  -- `None => added.push(...)`
  unfoldable pub added_of : Assoc (Attribute V) → Assoc (Attribute V) → Assoc (Attribute V)
  added_of current [] = []
  added_of current ((name, attr) ∷ desired) =
      let rest = added_of current desired in
      elim (lookup name current) [ none ↦ (name, attr) ∷ rest | some _ ↦ rest ]

module _ {V : Type 0} (V-discrete : Discrete V) where
  unfoldable pub same_attr : Attribute V → Attribute V → Bool
  same_attr prev attr = decide (Attribute-discrete V-discrete prev attr)

  -- `Some(prev) if prev != attr => changed.push(...)`
  unfoldable pub changed_of : Assoc (Attribute V) → Assoc (Attribute V) → List (AttrChange V)
  changed_of current [] = []
  changed_of current ((name, attr) ∷ desired) =
      let rest = changed_of current desired in
      elim (lookup name current) [
        | none ↦ rest
        | some prev ↦
            if same_attr prev attr
            then rest
            else (record {
              name = name;
              from = prev;
              to = attr;
              compatible = compatible_change prev attr;
            })
              ∷ rest
      ]

  unfoldable pub flags_changed : Schema V → Schema V → Bool
  flags_changed current desired =
      not (decide (ContentTypeKind-discrete current.kind desired.kind))
      || not (bool_eq (draft_and_publish current) (draft_and_publish desired))
      || not (bool_eq (is_localized current) (is_localized desired))

  unfoldable pub diff_existing : Schema V → Schema V → SchemaDiff V
  diff_existing current desired =
      let added = added_of current.attributes desired.attributes in
      let removed_names = removed_of desired.attributes current.attributes in
      let changed = changed_of current.attributes desired.attributes in
      record {
        uid = desired.uid;
        table = table_name desired;
        kind =
            if is_empty added && is_empty removed_names && is_empty changed
            then if flags_changed current desired then updated else unchanged
            else updated;
        added_attrs = added;
        removed_attrs = removed_names;
        changed_attrs = changed;
        desired = some desired;
      }

  unfoldable pub diff : Option (Schema V) → Schema V → SchemaDiff V
  unfolding diff_existing
  diff none desired = record {
    uid = desired.uid;
    table = table_name desired;
    kind = created;
    added_attrs = desired.attributes;
    removed_attrs = [];
    changed_attrs = [];
    desired = some desired;
  }
  diff (some current) desired = diff_existing current desired

  unfoldable pub diff_removed : Schema V → SchemaDiff V
  diff_removed current = record {
    uid = current.uid;
    table = table_name current;
    kind = removed;
    added_attrs = [];
    removed_attrs = keys current.attributes;
    changed_attrs = [];
    desired = none;
  }

  -- the first schema of that uid
  unfoldable pub find_schema : Uid → List (Schema V) → Option (Schema V)
  find_schema uid [] = none
  find_schema uid (s ∷ schemas) = if text_eq s.uid uid then some s else find_schema uid schemas

  unfoldable pub diff_desired : List (Schema V) → List (Schema V) → List (SchemaDiff V)
  unfolding find_schema diff
  diff_desired current [] = []
  diff_desired current (d ∷ desired) =
      diff (find_schema d.uid current) d ∷ diff_desired current desired

  unfoldable pub diff_missing : List (Schema V) → List (Schema V) → List (SchemaDiff V)
  unfolding diff_removed
  diff_missing desired [] = []
  diff_missing desired (c ∷ current) =
      let rest = diff_missing desired current in
      if any (λ d. text_eq d.uid c.uid) desired then rest else diff_removed c ∷ rest

  unfoldable pub diff_registry : List (Schema V) → List (Schema V) → List (SchemaDiff V)
  unfolding diff_desired diff_missing
  diff_registry current desired = diff_desired current desired ++ diff_missing desired current
