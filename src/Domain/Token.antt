-- ===== src/Domain/Token.antt =====
-- crates/core-domain/src/types.rs: the types of an API token.
use ferris_cms.Prelude.{
  ◌≡◌, ◌↔◌, Option, none, some, Text, lit, text_eq, text_eq_iff, if◌then◌else◌, arith,
}

pub data ApiTokenType : Type 0 where
  read_only full_access custom : ApiTokenType

unfoldable pub as_db_str : ApiTokenType → Text
as_db_str read_only = lit "read-only"
as_db_str full_access = lit "full-access"
as_db_str custom = lit "custom"

unfoldable pub from_db_str : Text → Option ApiTokenType
unfolding text_eq
from_db_str s =
    if text_eq s (lit "read-only")
    then some read_only
    else if text_eq s (lit "full-access")
    then some full_access
    else if text_eq s (lit "custom")
    then some custom
    else none

-- A stored name is read back as the value that wrote it, and no other text is read as that value.
pub from_db_str-eq-some_iff :
    (s : Text) (k : ApiTokenType) → (from_db_str s ≡ some k) ↔ (as_db_str k ≡ s)
unfolding from_db_str as_db_str
from_db_str-eq-some_iff s read_only = ground (
  arith,
  text_eq_iff s (lit "read-only"),
  text_eq_iff s (lit "full-access"),
  text_eq_iff s (lit "custom"),
)
from_db_str-eq-some_iff s full_access = ground (
  arith,
  text_eq_iff s (lit "read-only"),
  text_eq_iff s (lit "full-access"),
  text_eq_iff s (lit "custom"),
)
from_db_str-eq-some_iff s custom = ground (
  arith,
  text_eq_iff s (lit "read-only"),
  text_eq_iff s (lit "full-access"),
  text_eq_iff s (lit "custom"),
)
