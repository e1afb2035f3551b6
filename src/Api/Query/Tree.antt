-- ===== src/Api/Query/Tree.antt =====
-- The tree of a query's bracket notation: `Node`, `insert` and `indexed_children`. An `IndexMap` is
-- the list of its entries in the order of insertion.
pub mod Values
use ferris_cms.Prelude.{
  ℕ, ◌+◌, ◌-◌, ◌*◌, ◌≡◌, refl, sym, ap, ◌∙◌, Bool, true, false, ◌&&◌, Option, none, some, List, [],
  ◌∷◌, Text, text_eq, text_eq_iff, text_eq_refl, ltb, leb, ◌==◌, arith, Bool-cases, inl, inr,
  if◌then◌else◌,
}
use ferris_cms.Api.Query.Key.{split_key}

mutual
  pub data Node : Type 0 where
    node : Option Text → Nodes → Node

  -- `children: IndexMap<String, Node>`
  pub data Nodes : Type 0 where
    nil : Nodes
    cons : Text → Node → Nodes → Nodes

-- `Node::default()`
abbrev pub empty : Node
empty = node none nil

abbrev pub node_value : Node → Option Text
node_value (node v _) = v

abbrev pub node_children : Node → Nodes
node_children (node _ cs) = cs

-- `children.entry(key).or_default()`, changed in its place
unfoldable pub update_child : (Node → Node) → Text → Nodes → Nodes
update_child f key nil = cons key (f empty) nil
update_child f key (cons k n cs) =
    let rest = update_child f key cs in if text_eq k key then cons k (f n) cs else cons k n rest

unfoldable pub insert : List Text → Text → Node → Node
unfolding update_child
insert [] value (node _ cs) = node (some value) cs
insert (p ∷ path) value (node v cs) = node v (update_child (insert path value) p cs)

-- `children.get(key)`
unfoldable pub find_child : Text → Nodes → Option Node
find_child key nil = none
find_child key (cons k n cs) =
    let rest = find_child key cs in if text_eq k key then some n else rest

-- the value of the digits after `n`; `usize` has 64 bits
unfoldable pub digits_from : ℕ → Text → Option ℕ
digits_from n [] = if ltb n 18446744073709551616 then some n else none
digits_from n (c ∷ s) =
    let rest = digits_from (n * 10 + (c - b'0')) s in
    if leb b'0' c && leb c b'9' then rest else none

-- `str::parse::<usize>`, which takes a plus sign
unfoldable pub parse_usize : Text → Option ℕ
unfolding digits_from
parse_usize [] = none
parse_usize (c ∷ []) = if c == b'+' then none else digits_from 0 (c ∷ [])
parse_usize (c ∷ (d ∷ s)) = if c == b'+' then digits_from 0 (d ∷ s) else digits_from 0 (c ∷ (d ∷ s))

module _ {A : Type 0} where
  -- the stable `sort_by_key` of pairs by their index
  unfoldable pub insert_sorted : ℕ → A → List (ℕ × A) → List (ℕ × A)
  insert_sorted i a [] = (i, a) ∷ []
  insert_sorted i a ((j, b) ∷ xs) =
      let rest = insert_sorted i a xs in if leb i j then (i, a) ∷ ((j, b) ∷ xs) else (j, b) ∷ rest

  unfoldable pub sort_indexed : List (ℕ × A) → List (ℕ × A)
  unfolding insert_sorted
  sort_indexed [] = []
  sort_indexed ((i, a) ∷ xs) = insert_sorted i a (sort_indexed xs)

  abbrev pub seconds : List (ℕ × A) → List A
  seconds [] = []
  seconds ((_, a) ∷ xs) = a ∷ seconds xs

-- the children with a numeric key, each with its index
unfoldable pub numbered : Nodes → List (ℕ × Node)
unfolding parse_usize
numbered nil = []
numbered (cons k n cs) =
    let rest = numbered cs in elim (parse_usize k) [ some i ↦ (i, n) ∷ rest | none ↦ rest ]

unfoldable pub indexed_children : Node → List Node
unfolding numbered sort_indexed
indexed_children n = seconds (sort_indexed (numbered (node_children n)))

-- the loop of `from_pairs` over the pairs
unfoldable pub build : List (Text × Text) → Node → Node
unfolding insert split_key
build [] root = root
build ((k, v) ∷ pairs) root =
    build pairs (elim (split_key k) [ [] ↦ root | p ∷ path ↦ insert (p ∷ path) v root ])

-- the value at a path
unfoldable pub value_at : List Text → Node → Option Text
unfolding find_child
value_at [] (node v _) = v
value_at (p ∷ path) (node _ cs) = elim (find_child p cs) [ some n ↦ value_at path n | none ↦ none ]
