-- ===== src/Domain/Publication.antt =====
-- crates/core-domain/src/types.rs: draft and published variants.
use ferris_cms.Prelude.{
  ◌≡◌, ◌↔◌, Option, none, some, Text, lit, text_eq, text_eq_iff, if◌then◌else◌, arith,
}

pub data PublicationState : Type 0 where
  draft published : PublicationState

unfoldable pub as_db_str : PublicationState → Text
as_db_str draft = lit "draft"
as_db_str published = lit "published"

unfoldable pub from_db_str : Text → Option PublicationState
unfolding text_eq
from_db_str s =
    if text_eq s (lit "draft")
    then some draft
    else if text_eq s (lit "published")
    then some published
    else none

-- A stored name is read back as the value that wrote it, and no other text is read as that value.
pub from_db_str-eq-some_iff :
    (s : Text) (k : PublicationState) → (from_db_str s ≡ some k) ↔ (as_db_str k ≡ s)
unfolding from_db_str as_db_str
from_db_str-eq-some_iff s draft =
    ground (arith, text_eq_iff s (lit "draft"), text_eq_iff s (lit "published"))
from_db_str-eq-some_iff s published =
    ground (arith, text_eq_iff s (lit "draft"), text_eq_iff s (lit "published"))
