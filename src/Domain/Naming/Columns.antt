-- ===== src/Domain/Naming/Columns.antt =====
-- Column names: which words get an underscore, and when two attributes share a column.
use ferris_cms.Prelude.{
  ◌≡◌, refl, inl, inr, Bool, true, false, [], ◌∷◌, ◌++◌, Text, contains_iff, arith, Bool-cases, All,
  All-In, ◌↔◌, ◌==◌, ◌⊎◌, lit, List, In, contains, text_eq,
}
use mathlib.Core.List.{append_cancel_right}
use ferris_cms.Domain.Naming.{underscore, snake_case, reserved_sql, is_reserved_sql, column_name}
use ferris_cms.Domain.Naming.Snake.{Joined, snake_case-IsSnake}

-- The 21 words that get an underscore as a column, in the order of the alphabet. Other words of SQL,
-- such as `from` and `create`, stay as they are.
abbrev pub kept_words : List Text
kept_words =
    lit "case"
    ∷ lit "check"
    ∷ lit "column"
    ∷ lit "constraint"
    ∷ lit "default"
    ∷ lit "group"
    ∷ lit "index"
    ∷ lit "key"
    ∷ lit "limit"
    ∷ lit "offset"
    ∷ lit "order"
    ∷ lit "primary"
    ∷ lit "references"
    ∷ lit "select"
    ∷ lit "table"
    ∷ lit "type"
    ∷ lit "unique"
    ∷ lit "user"
    ∷ lit "values"
    ∷ lit "when"
    ∷ lit "where"
    ∷ []

-- The code's list and the one above have the same words.
reserved_sql-kept : All (λ w. contains kept_words w ≡ true) reserved_sql
unfolding contains text_eq
reserved_sql-kept = ground arith

kept-reserved_sql : All (λ w. is_reserved_sql w ≡ true) kept_words
unfolding is_reserved_sql
kept-reserved_sql = ground arith

is_reserved_sql-In_iff : (w : Text) → (is_reserved_sql w ≡ true) ↔ In w kept_words
unfolding is_reserved_sql
is_reserved_sql-In_iff w = (
  λ h. (contains_iff kept_words w).0 (
      All-In (λ v. contains kept_words v ≡ true) reserved_sql reserved_sql-kept w
        ((contains_iff reserved_sql w).0 h)),
  All-In (λ v. is_reserved_sql v ≡ true) kept_words kept-reserved_sql w,
)

-- None of these words is another one with an underscore behind it.
suffixed-unreserved : All (λ w. is_reserved_sql (w ++ underscore ∷ []) ≡ false) kept_words
unfolding is_reserved_sql
suffixed-unreserved = ground arith

ends_with_underscore : Text → Bool
ends_with_underscore [] = false
ends_with_underscore (c ∷ []) = c == underscore
ends_with_underscore (c ∷ (d ∷ s)) = ends_with_underscore (d ∷ s)

ends_with_underscore-snoc : (s : Text) → ends_with_underscore (s ++ underscore ∷ []) ≡ true
unfolding ends_with_underscore
ends_with_underscore-snoc [] = refl
ends_with_underscore-snoc (c ∷ []) = refl
ends_with_underscore-snoc (c ∷ (d ∷ s)) = ends_with_underscore-snoc (d ∷ s)

ends_with_underscore_of_Joined :
    (a : Bool) (s : Text) → Joined a true s → ends_with_underscore s ≡ false
unfolding ends_with_underscore
ends_with_underscore_of_Joined a [] h = refl
ends_with_underscore_of_Joined a (c ∷ []) (inl (w, h)) = ground arith
ends_with_underscore_of_Joined a (c ∷ []) (inr (_, _, h)) = cc
ends_with_underscore_of_Joined a (c ∷ (d ∷ s)) (inl (w, h)) =
    ends_with_underscore_of_Joined true (d ∷ s) h
ends_with_underscore_of_Joined a (c ∷ (d ∷ s)) (inr (_, _, h)) =
    ends_with_underscore_of_Joined false (d ∷ s) h

snake_case-ends : (s : Text) → ends_with_underscore (snake_case s) ≡ false
unfolding ends_with_underscore
snake_case-ends s = elim (snake_case-IsSnake s) [
  | inl e ↦ rw e refl
  | inr h ↦ ends_with_underscore_of_Joined false (snake_case s) h
]

unlisted : (w : Text) → is_reserved_sql w ≡ false → ¬ In w kept_words
unlisted w e m = let t = (is_reserved_sql-In_iff w).1 m in cc

suffixed-unlisted : (w : Text) → In w kept_words → ¬ In (w ++ underscore ∷ []) kept_words
suffixed-unlisted w m = unlisted (w ++ underscore ∷ []) (
    All-In (λ v. is_reserved_sql (v ++ underscore ∷ []) ≡ false) kept_words suffixed-unreserved w m)

-- If the snake case of an attribute is one of the 21 words of `kept_words`, its column is that word
-- with an underscore behind it, and else its column is the snake case. No column is one of these
-- words.
pub column_name-unreserved :
    (attr : Text)
    → (¬ In (column_name attr) kept_words)
      × ((In (snake_case attr) kept_words × (column_name attr ≡ snake_case attr ++ underscore ∷ []))
          ⊎ ((¬ In (snake_case attr) kept_words) × (column_name attr ≡ snake_case attr)))
unfolding column_name
column_name-unreserved attr =
    let w = snake_case attr in
    elim (Bool-cases (is_reserved_sql w)) [
      | inl e ↦
          let m = (is_reserved_sql-In_iff w).0 e in rw e (suffixed-unlisted w m, inl (m, refl))
      | inr e ↦ rw e (unlisted w e, inr (unlisted w e, refl))
    ]

-- Two attributes have the same column exactly when they have the same snake case.
pub column_name-eq_iff :
    (a b : Text) → (column_name a ≡ column_name b) ↔ (snake_case a ≡ snake_case b)
unfolding column_name
column_name-eq_iff a b =
    let x = snake_case a in
    let y = snake_case b in
    ground (
      arith,
      snake_case-ends a,
      snake_case-ends b,
      ends_with_underscore-snoc x,
      ends_with_underscore-snoc y,
      append_cancel_right x y (underscore ∷ []),
    )
