-- ===== src/Domain/Uid.antt =====
-- crates/core-domain/src/types.rs: uids.
use ferris_cms.Prelude.{
  ℕ, Bool, true, false, ◌&&◌, ◌||◌, Option, none, some, [], ◌∷◌, ◌++◌, Text, ◌==◌, if◌then◌else◌,
}

-- `Uid(pub String)`
abbrev pub Uid : Type 0
Uid = Text

-- `str::contains` of a byte, `split_once("::")`, and the first and the last piece of `split('.')`
unfoldable pub contains_byte : ℕ → Text → Bool
contains_byte b [] = false
contains_byte b (c ∷ s) = c == b || contains_byte b s

unfoldable pub split_scope : Text → Text → Option Text
split_scope before [] = none
split_scope before (c ∷ []) = none
split_scope before (c ∷ (d ∷ s)) =
    let rest = split_scope (before ++ c ∷ []) (d ∷ s) in
    if c == b':' && d == b':' then some before else rest

unfoldable pub first_segment : Text → Text
first_segment [] = []
first_segment (c ∷ s) = let rest = first_segment s in if c == b'.' then [] else c ∷ rest

unfoldable pub last_from : Text → Text → Text
last_from segment [] = segment
last_from segment (c ∷ s) = last_from (if c == b'.' then [] else segment ++ c ∷ []) s

unfoldable pub scope : Uid → Option Text
unfolding split_scope
scope uid = split_scope [] uid

abbrev is_none {ℓ} : {A : Type ℓ} → Option A → Bool
is_none none = true
is_none (some _) = false

unfoldable pub is_component : Uid → Bool
unfolding scope contains_byte
is_component uid = is_none (scope uid) && contains_byte b'.' uid

unfoldable pub component_category : Uid → Option Text
unfolding is_component first_segment
component_category uid = if is_component uid then some (first_segment uid) else none

unfoldable pub last_segment : Uid → Text
unfolding last_from
last_segment uid = last_from [] uid
