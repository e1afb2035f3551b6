-- ===== src/Domain/Naming.antt =====
-- crates/core-domain/src/naming.rs: physical names, over the bytes of a text. A character that is
-- not ASCII is a run of bytes of which none is ASCII alphanumeric: the first acts as the character
-- does, and the others change nothing.
pub mod Snake
pub mod Columns
pub mod Plural
use ferris_cms.Prelude.{
  ℕ, ◌+◌, ◌-◌, Bool, true, false, not, ◌&&◌, ◌||◌, List, [], ◌∷◌, ◌++◌, is_empty, Text, lit,
  contains, text_eq, leb, ◌==◌, if◌then◌else◌,
}

abbrev pub underscore : ℕ
underscore = b'_'

abbrev pub is_ascii_uppercase : ℕ → Bool
is_ascii_uppercase c = leb b'A' c && leb c b'Z'

abbrev pub is_ascii_lowercase : ℕ → Bool
is_ascii_lowercase c = leb b'a' c && leb c b'z'

abbrev pub is_ascii_digit : ℕ → Bool
is_ascii_digit c = leb b'0' c && leb c b'9'

abbrev pub to_ascii_lowercase : ℕ → ℕ
to_ascii_lowercase c = if is_ascii_uppercase c then c + 32 else c

abbrev pub to_ascii_uppercase : ℕ → ℕ
to_ascii_uppercase c = if is_ascii_lowercase c then c - 32 else c

-- the variables of the loop of `snake_case`
pub record SnakeState : Type 0 where
  pub out : Text
  pub prev_lower_or_digit : Bool
  pub prev_underscore : Bool

unfoldable pub snake_step : SnakeState → ℕ → SnakeState
snake_step s ch =
    if is_ascii_uppercase ch
    then record {
      out =
          (if s.prev_lower_or_digit then s.out ++ underscore ∷ [] else s.out)
          ++ to_ascii_lowercase ch ∷ [];
      prev_lower_or_digit = false;
      prev_underscore = false;
    }
    else if is_ascii_lowercase ch || is_ascii_digit ch
    then record { out = s.out ++ ch ∷ []; prev_lower_or_digit = true; prev_underscore = false }
    else record {
      out =
          if not s.prev_underscore && not (is_empty s.out) then s.out ++ underscore ∷ [] else s.out;
      prev_lower_or_digit = false;
      prev_underscore = true;
    }

unfoldable pub snake_loop : SnakeState → Text → SnakeState
snake_loop s [] = s
snake_loop s (ch ∷ rest) = snake_loop (snake_step s ch) rest

-- `while out.ends_with('_') { out.pop(); }`
unfoldable pub trim_end : Text → Text
trim_end [] = []
trim_end (c ∷ s) =
    let rest = trim_end s in if is_empty rest && c == underscore then [] else c ∷ rest

abbrev pub snake_start : SnakeState
snake_start = record { out = []; prev_lower_or_digit = false; prev_underscore = true }

unfoldable pub snake_case : Text → Text
unfolding snake_step snake_loop trim_end
snake_case s = trim_end (snake_loop snake_start s).out

abbrev pub reserved_sql : List Text
reserved_sql =
    lit "order"
    ∷ lit "group"
    ∷ lit "table"
    ∷ lit "select"
    ∷ lit "where"
    ∷ lit "index"
    ∷ lit "default"
    ∷ lit "primary"
    ∷ lit "references"
    ∷ lit "unique"
    ∷ lit "check"
    ∷ lit "constraint"
    ∷ lit "column"
    ∷ lit "key"
    ∷ lit "values"
    ∷ lit "user"
    ∷ lit "type"
    ∷ lit "when"
    ∷ lit "case"
    ∷ lit "limit"
    ∷ lit "offset"
    ∷ []

unfoldable pub is_reserved_sql : Text → Bool
unfolding contains text_eq
is_reserved_sql word = contains reserved_sql word

unfoldable pub column_name : Text → Text
column_name attr =
    if is_reserved_sql (snake_case attr)
    then snake_case attr ++ underscore ∷ []
    else snake_case attr

unfoldable pub collection_table : Text → Text
collection_table plural = lit "ct_" ++ snake_case plural

unfoldable pub single_table : Text → Text
single_table singular = lit "ct_" ++ snake_case singular

unfoldable pub component_table : Text → Text → Text
component_table category name =
    lit "cmp_" ++ (snake_case category ++ (underscore ∷ snake_case name))

unfoldable pub fk_column : Text → Text
fk_column attr = column_name attr ++ lit "_id"

unfoldable pub relation_join_table : Text → Text → Text
relation_join_table owner_table attr =
    owner_table ++ (underscore ∷ (column_name attr ++ lit "_links"))

unfoldable pub media_link_table : Text → Text → Text
media_link_table host_table attr =
    host_table ++ (underscore ∷ (column_name attr ++ lit "_files_links"))

unfoldable pub component_link_table : Text → Text
component_link_table host_table = host_table ++ lit "_components"
