-- ===== src/Api/Query/Filter/Errors.antt =====
-- The only error of a query's filters.
use ferris_cms.Prelude.{
  ℕ, ◌≡◌, refl, Option, none, some, List, [], ◌∷◌, Text, lit, text_eq, leb, Bool-cases, inl, inr,
}
use ferris_cms.Api.Query.Tree.{Node, node, Nodes, parse_usize, sort_indexed, insert_sorted, seconds}
use ferris_cms.Api.Query.Model.{
  parse_op, FilterOp, Filter, Filters, QueryParseError, unknown_operator, Parsed, ok, err, ◌>>=◌,
  Std,
}
use ferris_cms.Api.Query.Filter.{
  collect, keep_numbered, leaf_item, parse_leaves, field_filter, item, any_boolean,
  parse_filter_node, parse_items, parse_field_filter, parse_indexed, parse_numbered,
}

-- the error names a text that is no operator
abbrev pub IsUnknown : QueryParseError → Type 0
IsUnknown e = (op : Text) × (e ≡ unknown_operator op) × (parse_op op ≡ none)

abbrev Refuses : {A : Type 0} → Parsed A → Type 0
Refuses (ok a) = Unit
Refuses (err e) = IsUnknown e

Refuses-bind :
    {A B : Type 0} (m : Parsed A) (k : A → Parsed B)
    → Refuses m
    → ((a : A) → Refuses (k a))
    → Refuses (m >>= k)
Refuses-bind (ok a) k h g = g a
Refuses-bind (err e) k h g = h

module _ {N : Type 0} where
  AllRefuse : List (ℕ × Parsed (Filter N)) → Type 0
  AllRefuse [] = Unit
  AllRefuse ((_, r) ∷ rs) = Refuses r × AllRefuse rs

  insert_sorted-AllRefuse :
      (i : ℕ) (r : Parsed (Filter N)) (rs : List (ℕ × Parsed (Filter N)))
      → Refuses r
      → AllRefuse rs
      → AllRefuse (insert_sorted i r rs)
  unfolding insert_sorted AllRefuse
  insert_sorted-AllRefuse i r [] h k = (h, tt)
  insert_sorted-AllRefuse i r ((j, s) ∷ rs) h (l, k) = elim (Bool-cases (leb i j)) [
    | inl e ↦ rw e (h, (l, k))
    | inr e ↦ rw e (l, insert_sorted-AllRefuse i r rs h k)
  ]

  sort_indexed-AllRefuse :
      (rs : List (ℕ × Parsed (Filter N))) → AllRefuse rs → AllRefuse (sort_indexed rs)
  unfolding sort_indexed AllRefuse
  sort_indexed-AllRefuse [] h = tt
  sort_indexed-AllRefuse ((i, r) ∷ rs) (h, k) =
      insert_sorted-AllRefuse i r (sort_indexed rs) h (sort_indexed-AllRefuse rs k)

  collect-Refuses :
      (rs : List (ℕ × Parsed (Filter N))) → AllRefuse rs → Refuses (collect (seconds rs))
  unfolding AllRefuse
  collect-Refuses [] h = tt
  collect-Refuses ((i, r) ∷ rs) (h, k) =
      Refuses-bind r _ h λ f. Refuses-bind (collect (seconds rs)) _ (collect-Refuses rs k) λ fs. tt

module _ {N : Type 0} (std : Std N) where
  leaf_item-Refuses :
      (field key : Text) (child : Node) (o : Option FilterOp)
      → parse_op key ≡ o
      → (rest : Parsed (Filters N)) → Refuses rest
      → Refuses (leaf_item std field key child o rest)
  leaf_item-Refuses field key child none e rest h = (key, refl, e)
  leaf_item-Refuses field key child (some o) e rest h = Refuses-bind rest _ h λ fs. tt

  parse_leaves-Refuses : (field : Text) (cs : Nodes) → Refuses (parse_leaves std field cs)
  unfolding parse_leaves
  parse_leaves-Refuses field Nodes.nil = tt
  parse_leaves-Refuses field (Nodes.cons key child cs) =
      leaf_item-Refuses field key child (parse_op key) refl (parse_leaves std field cs)
        (parse_leaves-Refuses field cs)

  field_filter-Refuses :
      (field : Text) (v : Option Text) (cs : Nodes) (items : Parsed (Filters N))
      → Refuses items
      → Refuses (field_filter std field v cs items)
  unfolding field_filter
  field_filter-Refuses field (some v) cs items h = tt
  field_filter-Refuses field none cs items h = elim (Bool-cases (any_boolean cs)) [
    | inl e ↦ rw e (Refuses-bind items _ h λ fs. tt)
    | inr e ↦
        rw e (Refuses-bind (parse_leaves std field cs) _ (parse_leaves-Refuses field cs) λ fs. tt)
  ]

  item-Refuses :
      (key : Text) (subs : Parsed (Filters N)) (inner field : Parsed (Filter N))
      → Refuses subs
      → Refuses inner
      → Refuses field
      → Refuses (item std key subs inner field)
  unfolding item
  item-Refuses key subs inner field hs hi hf = elim (Bool-cases (text_eq key (lit "$and"))) [
    | inl a ↦ rw a (Refuses-bind subs _ hs λ fs. tt)
    | inr a ↦ elim (Bool-cases (text_eq key (lit "$or"))) [
      | inl o ↦ rw (a, o) (Refuses-bind subs _ hs λ fs. tt)
      | inr o ↦ elim (Bool-cases (text_eq key (lit "$not"))) [
        | inl n ↦ rw (a, o, n) (Refuses-bind inner _ hi λ f. tt)
        | inr n ↦ rw (a, o, n) hf
      ]
    ]
  ]

  keep_numbered-AllRefuse :
      (o : Option ℕ) (r : Parsed (Filter N)) (rs : List (ℕ × Parsed (Filter N)))
      → Refuses r
      → AllRefuse rs
      → AllRefuse (keep_numbered std o r rs)
  unfolding AllRefuse
  keep_numbered-AllRefuse none r rs h k = k
  keep_numbered-AllRefuse (some i) r rs h k = (h, k)

  mutual
    unfolding parse_filter_node AllRefuse

    node-Refuses : (n : Node) → Refuses (parse_filter_node std n)
    node-Refuses (node v cs) = Refuses-bind (parse_items std cs) _ (items-Refuses cs) λ fs. tt

    items-Refuses : (cs : Nodes) → Refuses (parse_items std cs)
    items-Refuses Nodes.nil = tt
    items-Refuses (Nodes.cons key child cs) =
        Refuses-bind
          (item std key (collect (seconds (sort_indexed (parse_indexed std child))))
            (parse_filter_node std child) (parse_field_filter std key child))
          _
          (item-Refuses key _ _ _
            (collect-Refuses (sort_indexed (parse_indexed std child))
              (sort_indexed-AllRefuse (parse_indexed std child) (indexed-AllRefuse child)))
            (node-Refuses child) (field-Refuses key child))
          λ f. Refuses-bind (parse_items std cs) _ (items-Refuses cs) λ fs. tt

    field-Refuses : (field : Text) (n : Node) → Refuses (parse_field_filter std field n)
    field-Refuses field (node v cs) =
        field_filter-Refuses field v cs (parse_items std cs) (items-Refuses cs)

    indexed-AllRefuse : (n : Node) → AllRefuse (parse_indexed std n)
    indexed-AllRefuse (node v cs) = numbered-AllRefuse cs

    numbered-AllRefuse : (cs : Nodes) → AllRefuse (parse_numbered std cs)
    numbered-AllRefuse Nodes.nil = tt
    numbered-AllRefuse (Nodes.cons key child cs) =
        keep_numbered-AllRefuse (parse_usize key) (parse_filter_node std child)
          (parse_numbered std cs) (node-Refuses child) (numbered-AllRefuse cs)

  -- If the filters of a query are refused, the error names a text that stands for no operator.
  pub parse_filter_node_error :
      (n : Node) (e : QueryParseError) → parse_filter_node std n ≡ err e → IsUnknown e
  parse_filter_node_error n e h = refused (parse_filter_node std n) (node-Refuses n) e h
    where
      refused :
          (r : Parsed (Filter N)) → Refuses r → (e : QueryParseError) → r ≡ err e → IsUnknown e
      refused (ok f) k e q = absurd (cc q)
      refused (err e') (op, u, z) e q = (op, cc (u, q), z)
