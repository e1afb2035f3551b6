-- ===== src/Api/Query/Params.antt =====
-- The other parameters of a query, and `from_pairs`.
pub mod Locale
pub mod Nested
use ferris_cms.Prelude.{
  ℕ, Bool, true, false, not, ◌&&◌, ◌||◌, Option, none, some, List, [], ◌∷◌, is_empty, length, map,
  Text, lit, text_eq, leb, ◌==◌, if◌then◌else◌,
}
use ferris_cms.Prelude.Int.{ℤ, pos}
use ferris_cms.Domain.Naming.{to_ascii_lowercase, is_ascii_digit}
use ferris_cms.Domain.Publication.{PublicationState, from_db_str}
use ferris_cms.Api.Query.Decode.{split_on, decode_pairs}
use ferris_cms.Api.Query.Tree.{
  Node, node, Nodes, nil, cons, empty, node_value, node_children, find_child, indexed_children,
  build,
}
use ferris_cms.Api.Query.Filter.{node_values, parse_filter_node}
use ferris_cms.Api.Query.Model.{
  PopulateSpec, star, list, map as fields_map, PopulateFields, end, field as populate_field,
  PopulateOption, absent, present, SortField, PaginationParams, page_of, offset_of, QueryParams,
  Parsed, ok, err, ◌>>=◌, Std,
}

unfoldable pub child_names : Nodes → List Text
child_names nil = []
child_names (cons key _ cs) = key ∷ child_names cs

unfoldable pub all_digits : Text → Bool
all_digits [] = true
all_digits (c ∷ s) = is_ascii_digit c && all_digits s

-- `split_once(sep)`
unfoldable pub split_once : ℕ → Text → Option (Text × Text)
split_once sep [] = none
split_once sep (c ∷ s) =
    let rest = split_once sep s in
    if c == sep then some ([], s) else elim rest [ some (a, b) ↦ some (c ∷ a, b) | none ↦ none ]

abbrev child_text : Text → Node → Option Text
child_text key n = elim (find_child key (node_children n)) [ some c ↦ node_value c | none ↦ none ]

abbrev has_child : Text → Node → Bool
has_child key n = elim (find_child key (node_children n)) [ some _ ↦ true | none ↦ false ]

abbrev or_else {ℓ} : {A : Type ℓ} → Option A → A → A
or_else none b = b
or_else (some a) b = a

module _ {N : Type 0} (std : Std N) where
  open std use {trim, parse_i64}

  abbrev trimmed_list : Text → List Text
  trimmed_list v = map trim (split_on b',' v)

  unfoldable pub parse_string_list : Node → List Text
  unfolding split_on node_values indexed_children child_names
  parse_string_list n = elim (node_value n) [
    | some v ↦ trimmed_list v
    | none ↦
        if is_empty (indexed_children n)
        then child_names (node_children n)
        else node_values std (indexed_children n)
  ]

  abbrev value_populate : Text → PopulateSpec
  value_populate v = if text_eq (trim v) (lit "*") then star else list (trimmed_list v)

  abbrev is_listed : Node → Bool
  is_listed n =
      not (is_empty (indexed_children n))
      && length (indexed_children n) == length (child_names (node_children n))

  -- `parse_populate`, given what the children are as fields
  unfoldable pub populate_of : Node → PopulateFields → PopulateSpec
  unfolding text_eq split_on indexed_children child_names node_values
  populate_of n fields = elim (node_value n) [
    | some v ↦ value_populate v
    | none ↦ if is_listed n then list (node_values std (indexed_children n)) else fields_map fields
  ]

  -- `field.fields`, of the children of a field
  unfoldable pub fields_loop : Nodes → Option (List Text) → Option (List Text)
  unfolding parse_string_list text_eq
  fields_loop nil found = found
  fields_loop (cons key sub cs) found =
      fields_loop cs (if text_eq key (lit "fields") then some (parse_string_list sub) else found)

  unfoldable mutual
    unfolding populate_of text_eq fields_loop all_digits

    pub parse_populate : Node → PopulateSpec
    parse_populate (node v cs) = populate_of (node v cs) (populate_fields cs)

    pub populate_fields : Nodes → PopulateFields
    populate_fields nil = end
    populate_fields (cons name child cs) =
        let rest = populate_fields cs in
        if all_digits name
        then rest
        else populate_field name (fields_loop (node_children child) none) (nested child) rest

    pub nested : Node → PopulateOption
    nested (node _ cs) = populate_loop cs absent

    -- `field.populate`, of the children of a field
    pub populate_loop : Nodes → PopulateOption → PopulateOption
    populate_loop nil found = found
    populate_loop (cons key sub cs) found =
        populate_loop cs
          (if text_eq key (lit "populate") then present (parse_populate sub) else found)

  abbrev sort_item : Text → SortField
  sort_item item = elim (split_once b':' item) [
    | some (name, dir) ↦ record {
      field = trim name;
      descending = text_eq (map to_ascii_lowercase (trim dir)) (lit "desc");
    }
    | none ↦ record { field = item; descending = false }
  ]

  unfoldable pub parse_sort : Node → List SortField
  unfolding split_on split_once node_values indexed_children text_eq
  parse_sort n = map sort_item (elim (node_value n) [
    | some v ↦ trimmed_list v
    | none ↦ node_values std (indexed_children n)
  ])

  abbrev get_i64 : Text → Node → ℤ → ℤ
  get_i64 key n default = elim (child_text key n) [
    | some v ↦ or_else (parse_i64 v) default
    | none ↦ default
  ]

  abbrev get_bool : Text → Node → Option Bool
  get_bool key n = elim (child_text key n) [
    | some v ↦ some (text_eq v (lit "true") || text_eq v (lit "1"))
    | none ↦ none
  ]

  unfoldable pub parse_pagination : Node → PaginationParams
  unfolding find_child text_eq
  parse_pagination n =
      if has_child (lit "start") n || has_child (lit "limit") n
      then offset_of (get_i64 (lit "start") n (pos 0)) (get_i64 (lit "limit") n (pos 25))
          (get_bool (lit "withCount") n)
      else page_of (get_i64 (lit "page") n (pos 1)) (get_i64 (lit "pageSize") n (pos 25))
          (get_bool (lit "withCount") n)

  -- `QueryParams::default()`
  abbrev pub no_params : QueryParams N
  no_params = record {
    fields = none;
    populate = none;
    filters = none;
    sort = [];
    pagination = none;
    locale = none;
    status = none;
  }

  abbrev pub status_of : Option Text → Option PublicationState
  status_of none = none
  status_of (some v) = from_db_str v

  -- one top-level parameter
  unfoldable pub param : Text → Node → QueryParams N → Parsed (QueryParams N)
  unfolding text_eq parse_string_list parse_populate parse_filter_node parse_sort parse_pagination
      from_db_str
  param key n out =
      if text_eq key (lit "fields")
      then ok (record out { fields = some (parse_string_list n) })
      else if text_eq key (lit "populate")
      then ok (record out { populate = some (parse_populate n) })
      else if text_eq key (lit "filters")
      then (parse_filter_node std n >>= λ f. ok (record out { filters = some f }))
      else if text_eq key (lit "sort")
      then ok (record out { sort = parse_sort n })
      else if text_eq key (lit "pagination")
      then ok (record out { pagination = some (parse_pagination n) })
      else if text_eq key (lit "locale")
      then ok (record out { locale = node_value n })
      else if text_eq key (lit "status")
      then ok (record out { status = status_of (node_value n) })
      else ok out

  unfoldable pub params_loop : Nodes → QueryParams N → Parsed (QueryParams N)
  unfolding param
  params_loop nil out = ok out
  params_loop (cons key n cs) out = param key n out >>= λ out'. params_loop cs out'

  unfoldable pub from_pairs : List (Text × Text) → Parsed (QueryParams N)
  unfolding params_loop build
  from_pairs pairs = params_loop (node_children (build pairs empty)) no_params

  -- `QueryParams::parse`; `lossy` is `String::from_utf8_lossy`
  unfoldable pub parse_query : (Text → Text) → Text → Parsed (QueryParams N)
  unfolding from_pairs decode_pairs
  parse_query lossy query = from_pairs (decode_pairs lossy query)
