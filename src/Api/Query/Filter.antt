-- ===== src/Api/Query/Filter.antt =====
-- The filters of a query: `parse_filter_node`, `parse_field_filter` and what they call. The subtrees
-- under numeric keys are parsed before they are put in order.
pub mod Errors
pub mod Meaning
pub mod Nested
use ferris_cms.Prelude.{
  ℕ, Bool, true, false, ◌&&◌, ◌||◌, Option, none, some, List, [], ◌∷◌, is_empty, Text, lit, text_eq,
  ◌==◌, if◌then◌else◌,
}
use ferris_cms.Prelude.Int.{ℤ}
use ferris_cms.Api.Query.Decode.{split_on}
use ferris_cms.Api.Query.Tree.{
  Node, node, Nodes, nil, cons, node_value, parse_usize, sort_indexed, seconds, indexed_children,
}
use ferris_cms.Api.Query.Model.{
  FilterOp, eq, parse_op, takes_list, Scalar, bool, int, float, str, Filter, and, or, not_, leaf,
  Filters, QueryParseError, unknown_operator, Parsed, ok, err, ◌>>=◌, Std,
}

-- `str::contains` of a character
unfoldable pub has_byte : ℕ → Text → Bool
has_byte b [] = false
has_byte b (c ∷ s) = c == b || has_byte b s

module _ {N : Type 0} where
  unfoldable mutual
    pub remap_field : Text → Filter N → Filter N
    remap_field field (and items) = and (remap_fields field items)
    remap_field field (or items) = or (remap_fields field items)
    remap_field field (not_ inner) = not_ (remap_field field inner)
    remap_field field (leaf _ o values) = leaf field o values

    pub remap_fields : Text → Filters N → Filters N
    remap_fields field Filters.nil = Filters.nil
    remap_fields field (Filters.cons f fs) =
        Filters.cons (remap_field field f) (remap_fields field fs)

  -- the only item, or all of them
  unfoldable pub conjunction : Filters N → Filter N
  conjunction Filters.nil = and Filters.nil
  conjunction (Filters.cons f Filters.nil) = f
  conjunction (Filters.cons f (Filters.cons g fs)) = and (Filters.cons f (Filters.cons g fs))

  -- `collect::<Result<Vec<_>, _>>()`
  abbrev pub collect : List (Parsed (Filter N)) → Parsed (Filters N)
  collect [] = ok Filters.nil
  collect (r ∷ rs) = r >>= λ f. collect rs >>= λ fs. ok (Filters.cons f fs)

unfoldable pub is_boolean : Text → Bool
unfolding text_eq
is_boolean key = text_eq key (lit "$and") || text_eq key (lit "$or") || text_eq key (lit "$not")

unfoldable pub any_boolean : Nodes → Bool
unfolding is_boolean
any_boolean nil = false
any_boolean (cons key _ cs) = is_boolean key || any_boolean cs

module _ {N : Type 0} (std : Std N) where
  open std use {trim, parse_i64, i64_to_string, parse_f64, from_f64}

  abbrev as_float : Text → Text → Scalar N
  as_float s t = elim (parse_f64 t) [
    | some f ↦
        if has_byte b'.' t || has_byte b'e' t || has_byte b'E' t
        then elim (from_f64 f) [ some n ↦ float n | none ↦ str s ]
        else str s
    | none ↦ str s
  ]

  abbrev as_number : Text → Text → Scalar N
  as_number s t = elim (parse_i64 t) [
    | some i ↦ if text_eq (i64_to_string i) t then int i else as_float s t
    | none ↦ as_float s t
  ]

  unfoldable pub coerce_scalar : Text → Scalar N
  unfolding text_eq has_byte
  coerce_scalar s =
      if text_eq (trim s) (lit "true")
      then bool true
      else if text_eq (trim s) (lit "false")
      then bool false
      else as_number s (trim s)

  unfoldable pub coerce_all : List Text → List (Scalar N)
  coerce_all [] = []
  coerce_all (s ∷ ss) = coerce_scalar s ∷ coerce_all ss

  -- the values of the nodes that have one
  unfoldable pub node_values : List Node → List Text
  node_values [] = []
  node_values (n ∷ ns) =
      let rest = node_values ns in elim (node_value n) [ some v ↦ v ∷ rest | none ↦ rest ]

  unfoldable pub parse_op_values : FilterOp → Node → List (Scalar N)
  unfolding coerce_all coerce_scalar node_values indexed_children split_on
  parse_op_values o n = elim (node_value n) [
    | some v ↦ if takes_list o then coerce_all (split_on b',' v) else coerce_scalar v ∷ []
    | none ↦ coerce_all (node_values (indexed_children n))
  ]

  abbrev pub leaf_item :
      Text → Text → Node → Option FilterOp → Parsed (Filters N) → Parsed (Filters N)
  leaf_item field key child none rest = err (unknown_operator key)
  leaf_item field key child (some o) rest =
      rest >>= λ fs. ok (Filters.cons (leaf field o (parse_op_values o child)) fs)

  -- the operators under a field
  unfoldable pub parse_leaves : Text → Nodes → Parsed (Filters N)
  unfolding parse_op parse_op_values
  parse_leaves field nil = ok Filters.nil
  parse_leaves field (cons key child cs) =
      leaf_item field key child (parse_op key) (parse_leaves field cs)

  -- `parse_field_filter`, given what the children are as items
  unfoldable pub field_filter : Text → Option Text → Nodes → Parsed (Filters N) → Parsed (Filter N)
  unfolding coerce_scalar any_boolean parse_leaves conjunction remap_field
  field_filter field (some v) cs items = ok (leaf field eq (coerce_scalar v ∷ []))
  field_filter field none cs items =
      if any_boolean cs
      then (items >>= λ fs. ok (remap_field field (conjunction fs)))
      else (parse_leaves field cs >>= λ fs. ok (conjunction fs))

  -- one child of a node: a Boolean operator or a field
  unfoldable pub item :
      Text → Parsed (Filters N) → Parsed (Filter N) → Parsed (Filter N) → Parsed (Filter N)
  unfolding text_eq
  item key subs inner field =
      if text_eq key (lit "$and")
      then (subs >>= λ fs. ok (and fs))
      else if text_eq key (lit "$or")
      then (subs >>= λ fs. ok (or fs))
      else if text_eq key (lit "$not")
      then (inner >>= λ f. ok (not_ f))
      else field

  abbrev pub keep_numbered :
      Option ℕ → Parsed (Filter N) → List (ℕ × Parsed (Filter N)) → List (ℕ × Parsed (Filter N))
  keep_numbered none r rest = rest
  keep_numbered (some i) r rest = (i, r) ∷ rest

  unfoldable mutual
    unfolding item field_filter sort_indexed parse_usize conjunction

    pub parse_filter_node : Node → Parsed (Filter N)
    parse_filter_node (node _ cs) = parse_items cs >>= λ fs. ok (conjunction fs)

    pub parse_items : Nodes → Parsed (Filters N)
    parse_items nil = ok Filters.nil
    parse_items (cons key child cs) =
        item key (collect (seconds (sort_indexed (parse_indexed child)))) (parse_filter_node child)
          (parse_field_filter key child)
        >>= λ f. parse_items cs >>= λ fs. ok (Filters.cons f fs)

    pub parse_field_filter : Text → Node → Parsed (Filter N)
    parse_field_filter field (node v cs) = field_filter field v cs (parse_items cs)

    -- the filters of the children with a numeric key
    pub parse_indexed : Node → List (ℕ × Parsed (Filter N))
    parse_indexed (node _ cs) = parse_numbered cs

    pub parse_numbered : Nodes → List (ℕ × Parsed (Filter N))
    parse_numbered nil = []
    parse_numbered (cons key child cs) =
        keep_numbered (parse_usize key) (parse_filter_node child) (parse_numbered cs)
