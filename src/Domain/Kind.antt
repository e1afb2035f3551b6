-- ===== src/Domain/Kind.antt =====
-- crates/core-domain/src/types.rs: the kinds of a schema and of a relation.
use ferris_cms.Prelude.{
  ◌≡◌, ◌↔◌, Bool, true, false, Option, none, some, Text, lit, text_eq, text_eq_iff, if◌then◌else◌,
  arith,
}

pub data ContentTypeKind : Type 0 where
  collection_type single_type component : ContentTypeKind

unfoldable pub as_db_str : ContentTypeKind → Text
as_db_str collection_type = lit "collectionType"
as_db_str single_type = lit "singleType"
as_db_str component = lit "component"

unfoldable pub from_db_str : Text → Option ContentTypeKind
unfolding text_eq
from_db_str s =
    if text_eq s (lit "collectionType")
    then some collection_type
    else if text_eq s (lit "singleType")
    then some single_type
    else if text_eq s (lit "component")
    then some component
    else none

pub data RelationKind : Type 0 where
  one_way one_to_one one_to_many many_to_one many_to_many many_way : RelationKind

unfoldable pub owner_has_fk : RelationKind → Bool
owner_has_fk one_way = true
owner_has_fk one_to_one = true
owner_has_fk many_to_one = true
owner_has_fk _ = false

unfoldable pub uses_join_table : RelationKind → Bool
uses_join_table many_to_many = true
uses_join_table many_way = true
uses_join_table _ = false

unfoldable pub ContentTypeKind-discrete : Discrete ContentTypeKind
ContentTypeKind-discrete = hlevel

unfoldable pub RelationKind-discrete : Discrete RelationKind
RelationKind-discrete = hlevel

-- A stored name is read back as the value that wrote it, and no other text is read as that value.
pub from_db_str-eq-some_iff :
    (s : Text) (k : ContentTypeKind) → (from_db_str s ≡ some k) ↔ (as_db_str k ≡ s)
unfolding from_db_str as_db_str
from_db_str-eq-some_iff s collection_type = ground (
  arith,
  text_eq_iff s (lit "collectionType"),
  text_eq_iff s (lit "singleType"),
  text_eq_iff s (lit "component"),
)
from_db_str-eq-some_iff s single_type = ground (
  arith,
  text_eq_iff s (lit "collectionType"),
  text_eq_iff s (lit "singleType"),
  text_eq_iff s (lit "component"),
)
from_db_str-eq-some_iff s component = ground (
  arith,
  text_eq_iff s (lit "collectionType"),
  text_eq_iff s (lit "singleType"),
  text_eq_iff s (lit "component"),
)
