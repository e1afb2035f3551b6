-- ===== src/Schema/Validation/Cycles.antt =====
-- crates/core-schema/src/validation.rs, `detect_computed_cycles`: which computed fields depend on
-- one another in a circle, by Kahn's algorithm. `N` is the type `f64`, and `iter` lists the entries
-- of a `HashMap`, in whatever order. A vector that serves as a stack is the list from its end.
pub mod Counts
pub mod Raised
pub mod Links
pub mod Linked
pub mod Built
pub mod Drained
pub mod Entries
pub mod Sorted
pub mod Reads
pub mod Order
use ferris_cms.Prelude.{
  ◌≡◌, ℕ, zero, suc, ◌+◌, ◌-◌, Bool, true, false, ◌&&◌, ◌||◌, Option, none, some, List, [], ◌∷◌,
  ◌++◌, Text, lit, ltb, ◌==◌, contains, length, Assoc, lookup, insert_key, if◌then◌else◌,
}
use ferris_cms.Schema.Model.{Attribute, Schema}
use ferris_cms.Schema.Expression.Ast.{columns}
use ferris_cms.Schema.Expression.Parser.{Parsed, ok, err, out_of_fuel, parse_expression}
use ferris_cms.Schema.Validation.{FieldError}

-- `edges` and `indegree`
pub record Graph : Type 0 where
  pub edges : Assoc (List Text)
  pub indegree : Assoc ℕ

-- `edges.get(&n).cloned().unwrap_or_default()`
abbrev pub targets : Assoc (List Text) → Text → List Text
targets edges n = elim (lookup n edges) [ some ds ↦ ds | none ↦ [] ]

-- `*indegree.entry(n).or_insert(0) += by`; with `by` 0, the entry only
unfoldable pub raise : Text → ℕ → Assoc ℕ → Assoc ℕ
unfolding lookup insert_key
raise n by m = insert_key n (elim (lookup n m) [ some d ↦ d + by | none ↦ by ]) m

-- the columns of the expression that are not declared as dependencies are appended
unfoldable pub add_columns : List Text → List Text → List Text
unfolding contains
add_columns deps [] = deps
add_columns deps (c ∷ cs) = add_columns (if contains deps c then deps else deps ++ c ∷ []) cs

unfoldable pub is_computed : {V : Type 0} → Assoc (Attribute V) → Text → Bool
unfolding lookup
is_computed attributes n = elim (lookup n attributes) [ some a ↦ a.computed | none ↦ false ]

-- a round of the loop over the dependencies of a field that adds an edge
unfoldable pub link : Text → Text → Graph → Graph
unfolding raise lookup insert_key
link name dep g = record {
  edges = insert_key name (targets g.edges name ++ dep ∷ []) g.edges;
  indegree = raise dep 1 g.indegree;
}

module _ {V : Type 0} (attributes : Assoc (Attribute V)) where
  unfoldable pub link_all : Text → List Text → Graph → Graph
  unfolding link is_computed
  link_all name [] g = g
  link_all name (d ∷ deps) g =
      link_all name deps (if is_computed attributes d then link name d g else g)

module _ {N : Type 0} (parse_f64 : Text → Option N) where
  unfoldable pub parsed_deps : List Text → Option Text → List Text
  unfolding add_columns columns parse_expression
  parsed_deps deps none = deps
  parsed_deps deps (some src) = elim (parse_expression parse_f64 src) [
    | ok e ↦ add_columns deps (columns e)
    | err _ ↦ deps
    | out_of_fuel ↦ deps
  ]

  module _ {V : Type 0} (attributes : Assoc (Attribute V)) where
    -- a round of the loop over the attributes
    unfoldable pub link_attribute : Text → Attribute V → Graph → Graph
    unfolding link_all parsed_deps raise
    link_attribute name attr g =
        if attr.computed
        then link_all attributes name (parsed_deps attr.dependencies attr.expression)
            (record g { indegree = raise name 0 g.indegree })
        else g

    unfoldable pub build : Assoc (Attribute V) → Graph → Graph
    unfolding link_attribute
    build [] g = g
    build ((name, attr) ∷ rest) g = build rest (link_attribute name attr g)

-- the variables of the `while` loop
pub record Drain : Type 0 where
  pub degrees : Assoc ℕ
  pub queue : List Text
  pub removed : ℕ

-- the initial queue: the entries without a dependent, each pushed after those before it
unfoldable pub free_fields : Assoc ℕ → List Text → List Text
free_fields [] queue = queue
free_fields ((n, d) ∷ m) queue = free_fields m (if d == 0 then n ∷ queue else queue)

-- a round of the `for` loop over the fields that the removed one depends on
unfoldable pub relax : Text → Drain → Drain
unfolding lookup insert_key
relax n s = elim (lookup n s.degrees) [
  | none ↦ s
  | some d ↦ record s {
    degrees = insert_key n (d - 1) s.degrees;
    queue = if (d - 1) == 0 then n ∷ s.queue else s.queue;
  }
]

unfoldable pub relax_all : List Text → Drain → Drain
unfolding relax
relax_all [] s = s
relax_all (n ∷ ns) s = relax_all ns (relax n s)

unfoldable pub drain : ℕ → Assoc (List Text) → Drain → Drain
unfolding relax_all lookup
drain zero edges s = s
drain (suc fuel) edges s = elim s.queue [
  | [] ↦ s
  | n ∷ rest ↦
      drain fuel edges
        (relax_all (targets edges n) (record s { queue = rest; removed = s.removed + 1 }))
]

-- the names with a dependent left
unfoldable pub positive : Assoc ℕ → List Text
positive [] = []
positive ((n, d) ∷ m) = if ltb 0 d then n ∷ positive m else positive m

-- the order of `String`: that of the bytes
unfoldable pub text_le : Text → Text → Bool
text_le [] t = true
text_le (c ∷ s) [] = false
text_le (c ∷ s) (d ∷ t) = ltb c d || (c == d && text_le s t)

unfoldable pub insert_text : Text → List Text → List Text
unfolding text_le
insert_text s [] = s ∷ []
insert_text s (t ∷ ts) = if text_le s t then s ∷ t ∷ ts else t ∷ insert_text s ts

unfoldable pub sort_texts : List Text → List Text
unfolding insert_text
sort_texts [] = []
sort_texts (s ∷ ss) = insert_text s (sort_texts ss)

unfoldable pub cycle_errors : Text → List Text → List FieldError
cycle_errors base [] = []
cycle_errors base (n ∷ ns) =
    record { path = base ++ (lit ".attributes." ++ n); code = lit "circular-dependency" }
    ∷ cycle_errors base ns

module _ (iter : Assoc ℕ → Assoc ℕ) where
  -- Each round removes a field, so there are at most as many rounds as fields.
  unfoldable pub drained : Graph → Drain
  unfolding drain free_fields
  drained g =
      drain (length g.indegree + 1) g.edges
        (record { degrees = g.indegree; queue = free_fields (iter g.indegree) []; removed = 0 })

  -- the names that are reported
  unfoldable pub cyclic : Graph → List Text
  unfolding drained positive sort_texts
  cyclic g =
      let s = drained g in
      if ltb s.removed (length s.degrees) then sort_texts (positive (iter s.degrees)) else []

  unfoldable pub detect_computed_cycles :
      {V N : Type 0} → (Text → Option N) → Schema V → Text → List FieldError
  unfolding cyclic build cycle_errors
  detect_computed_cycles parse_f64 schema base = cycle_errors base (
      cyclic (
        build parse_f64 schema.attributes schema.attributes (record { edges = []; indegree = [] })))
