-- ===== src/Api/Query/Filter/Nested.antt =====
-- A Boolean operator under a field: `filters[title][$or][0][$contains]=a`.
use ferris_cms.Prelude.{◌≡◌, refl, false, none, some, List, [], ◌∷◌, Text, lit, text_eq, arith}
use ferris_cms.Api.Query.Tree.{Node, node, Nodes, parse_usize, sort_indexed}
use ferris_cms.Api.Query.Model.{eq, Filter, and, or, leaf, Filters, Parsed, ok, Std}
use ferris_cms.Api.Query.Filter.{
  coerce_scalar, is_boolean, any_boolean, item, field_filter, parse_field_filter, remap_field,
  conjunction,
}

abbrev pub chain : List Text → Text → Node
chain [] v = node (some v) Nodes.nil
chain (p ∷ ps) v = node none (Nodes.cons p (chain ps v) Nodes.nil)

module _ {N : Type 0} (std : Std N) where
  -- what the value under a name that is no Boolean operator is read as
  item_of_name :
      (op v : Text) (subs : Parsed (Filters N)) (inner : Parsed (Filter N))
      → is_boolean op ≡ false
      → item std op subs inner (ok (leaf op eq (coerce_scalar std v ∷ [])))
        ≡ ok (leaf op eq (coerce_scalar std v ∷ []))
  unfolding item is_boolean
  item_of_name op v subs inner h = ground arith

  -- The operator that follows the index of a Boolean operator under a field is not read: whatever
  -- name stands there, but for a Boolean operator, the value is compared for equality.
  pub parse_field_filter-nested :
      (field op v : Text)
      → is_boolean op ≡ false
      → parse_field_filter std field (chain (lit "$or" ∷ lit "0" ∷ op ∷ []) v)
        ≡ ok (or (Filters.cons (leaf field eq (coerce_scalar std v ∷ [])) Filters.nil))
  unfolding parse_field_filter field_filter any_boolean is_boolean item text_eq parse_usize
      sort_indexed remap_field conjunction
  parse_field_filter-nested field op v h =
      rw (item_of_name op v (ok Filters.nil) (ok (and Filters.nil)) h) refl
