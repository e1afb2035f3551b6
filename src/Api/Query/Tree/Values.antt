-- ===== src/Api/Query/Tree/Values.antt =====
-- The values of the tree that a query's pairs build.
use ferris_cms.Prelude.{
  ◌≡◌, refl, sym, ap, ◌∙◌, Bool, true, false, ◌&&◌, Option, none, some, List, [], ◌∷◌, Text,
  text_eq, text_eq_iff, arith, Bool-cases, inl, inr, if◌then◌else◌,
}
use ferris_cms.Api.Query.Key.{split_key}
use ferris_cms.Api.Query.Tree.{
  Node, node, Nodes, nil, cons, empty, update_child, insert, find_child, build, value_at,
}

unfoldable pub path_eq : List Text → List Text → Bool
path_eq [] [] = true
path_eq [] (q ∷ qs) = false
path_eq (p ∷ ps) [] = false
path_eq (p ∷ ps) (q ∷ qs) = text_eq p q && path_eq ps qs

-- the child, or a new node
abbrev or_empty : Option Node → Node
or_empty none = empty
or_empty (some n) = n

find_child-update_child :
    (f : Node → Node) (p q : Text) (cs : Nodes)
    → find_child q (update_child f p cs)
      ≡ (if text_eq p q then some (f (or_empty (find_child p cs))) else find_child q cs)
unfolding find_child update_child
find_child-update_child f p q nil = refl
find_child-update_child f p q (cons k n cs) =
    ground
      (arith, text_eq_iff k p, text_eq_iff k q, text_eq_iff p q, find_child-update_child f p q cs)

child_value : List Text → Option Node → Option Text
child_value path none = none
child_value path (some n) = value_at path n

value_at-empty : (path : List Text) → value_at path empty ≡ none
unfolding value_at find_child
value_at-empty [] = refl
value_at-empty (p ∷ path) = refl

value_at-cons :
    (p : Text) (path : List Text) (v : Option Text) (cs : Nodes)
    → value_at (p ∷ path) (node v cs) ≡ child_value path (find_child p cs)
unfolding value_at child_value
value_at-cons p path v cs = at_child (find_child p cs)
  where
    at_child :
        (o : Option Node) → (elim o [ some n ↦ value_at path n | none ↦ none ]) ≡ child_value path o
    at_child none = refl
    at_child (some n) = refl

value_at-or_empty :
    (path : List Text) (o : Option Node) → value_at path (or_empty o) ≡ child_value path o
unfolding child_value
value_at-or_empty path none = value_at-empty path
value_at-or_empty path (some n) = refl

-- at a child with the first name of the path
below :
    (p q : Text) (ps qs : List Text) (v : Text) (w : Option Text) (cs : Nodes)
    → text_eq p q ≡ true
    → value_at qs (insert ps v (or_empty (find_child p cs)))
      ≡ (if path_eq ps qs then some v else value_at qs (or_empty (find_child p cs)))
    → value_at qs (insert ps v (or_empty (find_child p cs)))
      ≡ (if path_eq ps qs then some v else value_at (q ∷ qs) (node w cs))
below p q ps qs v w cs e h =
    cc (h, value_at-or_empty qs (find_child p cs), value_at-cons q qs w cs, (text_eq_iff p q).0 e)

value_at-insert :
    (ps qs : List Text) (v : Text) (n : Node)
    → value_at qs (insert ps v n) ≡ (if path_eq ps qs then some v else value_at qs n)
unfolding insert path_eq value_at child_value
value_at-insert [] [] v (node w cs) = refl
value_at-insert [] (q ∷ qs) v (node w cs) = refl
value_at-insert (p ∷ ps) [] v (node w cs) = refl
value_at-insert (p ∷ ps) (q ∷ qs) v (node w cs) =
    value_at-cons q qs w (update_child (insert ps v) p cs)
    ∙ ap (child_value qs) (find_child-update_child (insert ps v) p q cs)
    ∙ elim (Bool-cases (text_eq p q)) [
      | inl e ↦
          rw e (below p q ps qs v w cs e (value_at-insert ps qs v (or_empty (find_child p cs))))
      | inr e ↦ rw e (sym (value_at-cons q qs w cs))
    ]

-- the last value that is given under a path, or the one before the pairs
pub last_value : List (Text × Text) → List Text → Option Text → Option Text
last_value [] path before = before
last_value ((k, v) ∷ pairs) path before =
    last_value pairs path (if path_eq (split_key k) path then some v else before)

-- Two kinds of path are not written: the empty one, and one that no pair's key splits into.
build_step :
    (k : List Text) (v p : Text) (path : List Text) (root : Node)
    → value_at (p ∷ path) (elim k [ [] ↦ root | q ∷ qs ↦ insert (q ∷ qs) v root ])
      ≡ (if path_eq k (p ∷ path) then some v else value_at (p ∷ path) root)
unfolding path_eq
build_step [] v p path root = refl
build_step (q ∷ qs) v p path root = value_at-insert (q ∷ qs) (p ∷ path) v root

-- The tree that a query's pairs build has at each path the value of the last pair whose key splits
-- into that path, and where there is none the value that was there before.
pub value_at-build :
    (pairs : List (Text × Text)) (p : Text) (path : List Text) (root : Node)
    → value_at (p ∷ path) (build pairs root)
      ≡ last_value pairs (p ∷ path) (value_at (p ∷ path) root)
unfolding build last_value
value_at-build [] p path root = refl
value_at-build ((k, v) ∷ pairs) p path root =
    value_at-build pairs p path (elim (split_key k) [ [] ↦ root | q ∷ qs ↦ insert (q ∷ qs) v root ])
    ∙ ap (last_value pairs (p ∷ path)) (build_step (split_key k) v p path root)
