-- ===== src/Schema/Diff/Patch.antt =====
-- The diff of two schemas holds all that has to be done to the attributes, and nothing else.
use ferris_cms.Prelude.{
  ◌≡◌, refl, sym, ap, ◌∙◌, ◌↔◌, inl, inr, Bool, true, false, not, ◌&&◌, Option, none, some, List,
  [], ◌∷◌, is_empty, Text, text_eq_refl, contains, Nodup, arith, Assoc, keys, lookup, Bool-cases,
  if◌then◌else◌,
}
use ferris_cms.Schema.Model.{Attribute, Schema}
use ferris_cms.Schema.Diff.{
  AttrChange, SchemaDiff, added_of, removed_of, changed_of, same_attr, is_noop, diff,
}
use ferris_cms.Schema.Diff.Attributes.{
  is_some, contains-keys, added_lookup, lookup-added_of, contains-removed_of, changed_to,
  changed_lookup, same_attr_iff, changed_to-changed_of,
}

-- an added definition, else a changed one, else none if it is removed, else the current one
abbrev combine {ℓ} : {A : Type ℓ} → Option A → Option A → Bool → Option A → Option A
combine (some a) c r l = some a
combine none (some a) r l = some a
combine none none r l = if r then none else l

-- What the attribute `n` is after the changes of a diff have been made to the current attributes.
abbrev pub patched : {V : Type 0} → Assoc (Attribute V) → SchemaDiff V → Text → Option (Attribute V)
patched current d n =
    combine (lookup n d.added_attrs) (changed_to n d.changed_attrs) (contains d.removed_attrs n)
      (lookup n current)

module _ {V : Type 0} (V-discrete : Discrete V) where
  combine-lookups :
      (c d : Option (Attribute V))
      → combine (added_lookup c d) (changed_lookup V-discrete c d) (is_some c && not (is_some d)) c
        ≡ d
  combine-lookups none none = refl
  combine-lookups none (some a) = refl
  combine-lookups (some p) none = refl
  combine-lookups (some p) (some a) = elim (Bool-cases (same_attr V-discrete p a)) [
    | inl e ↦ rw e (ap some ((same_attr_iff V-discrete p a).0 e))
    | inr e ↦ rw e refl
  ]

  removed-lookups :
      (current desired : Assoc (Attribute V)) (n : Text)
      → contains (removed_of desired current) n
        ≡ (is_some (lookup n current) && not (is_some (lookup n desired)))
  removed-lookups current desired n =
      cc (contains-removed_of desired current n, contains-keys current n, contains-keys desired n)

  combine-attributes :
      (c d : Assoc (Attribute V)) (n : Text)
      → Nodup (keys d)
      → combine
          (lookup n (added_of c d))
          (changed_to n (changed_of V-discrete c d))
          (contains (removed_of d c) n)
          (lookup n c)
        ≡ lookup n d
  combine-attributes c d n distinct =
      rw
        (
          lookup-added_of c d n,
          changed_to-changed_of V-discrete c d n distinct,
          removed-lookups c d n,
        )
        (combine-lookups (lookup n c) (lookup n d))

  -- If no name stands twice among the desired attributes, the changes of a diff, made to the current
  -- attributes, give the desired attributes.
  pub diff-patched :
      (current desired : Schema V) (n : Text)
      → Nodup (keys desired.attributes)
      → patched current.attributes (diff V-discrete (some current) desired) n
        ≡ lookup n desired.attributes
  unfolding diff
  diff-patched current desired n distinct =
      combine-attributes current.attributes desired.attributes n distinct

combine-empty :
    {V : Type 0} (added : Assoc (Attribute V)) (cs : List (AttrChange V)) (rs : List Text)
    (n : Text) (l : Option (Attribute V))
    → (is_empty added && is_empty rs && is_empty cs) ≡ true
    → combine (lookup n added) (changed_to n cs) (contains rs n) l ≡ l
unfolding lookup contains
combine-empty [] [] [] n l h = refl
combine-empty (a ∷ added) cs rs n l h = cc
combine-empty [] cs (r ∷ rs) n l h = cc
combine-empty [] (x ∷ cs) [] n l h = cc

empty_of_lookup : {A : Type 0} (m : Assoc A) → ((n : Text) → lookup n m ≡ none) → is_empty m ≡ true
unfolding lookup
empty_of_lookup [] h = refl
empty_of_lookup ((k, v) ∷ m) h = ground (arith, h k, text_eq_refl k)

empty_of_contains : (xs : List Text) → ((n : Text) → contains xs n ≡ false) → is_empty xs ≡ true
unfolding contains
empty_of_contains [] h = refl
empty_of_contains (x ∷ xs) h = ground (arith, h x, text_eq_refl x)

empty_of_changed :
    {V : Type 0} (cs : List (AttrChange V))
    → ((n : Text) → changed_to n cs ≡ none)
    → is_empty cs ≡ true
empty_of_changed [] h = refl
empty_of_changed (c ∷ cs) h = ground (arith, h c.name, text_eq_refl c.name)

module _ {V : Type 0} (V-discrete : Discrete V) where
  is_noop-diff :
      (c d : Schema V)
      → is_noop (diff V-discrete (some c) d) ≡ (
          is_empty (added_of c.attributes d.attributes)
          && is_empty (removed_of d.attributes c.attributes)
          && is_empty (changed_of V-discrete c.attributes d.attributes))
  unfolding is_noop diff
  is_noop-diff c d = ground arith

  added_same : (o : Option (Attribute V)) → added_lookup o o ≡ none
  added_same none = refl
  added_same (some a) = refl

  changed_same : (o : Option (Attribute V)) → changed_lookup V-discrete o o ≡ none
  changed_same none = refl
  changed_same (some a) = rw ((same_attr_iff V-discrete a a).1 refl)

  removed_same : (b : Bool) → (b && not b) ≡ false
  removed_same true = refl
  removed_same false = refl

  -- If no name stands twice among the desired attributes, the changes of an update are taken to be
  -- none exactly when the attributes are the same under each name:
  -- the kind of the schema, its flags, its names and its table may differ.
  pub is_noop-diff_iff :
      (current desired : Schema V)
      → Nodup (keys desired.attributes)
      → (is_noop (diff V-discrete (some current) desired) ≡ true)
        ↔ ((n : Text) → lookup n current.attributes ≡ lookup n desired.attributes)
  is_noop-diff_iff current desired distinct =
      let c = current.attributes in
      let d = desired.attributes in
      rw (is_noop-diff current desired) (
        λ h n.
            sym (
              combine-empty (added_of c d) (changed_of V-discrete c d) (removed_of d c) n
                (lookup n c) h)
            ∙ combine-attributes V-discrete c d n distinct,
        λ same. ground (
          arith,
          empty_of_lookup (added_of c d)
              (λ n. lookup-added_of c d n ∙ (rw (same n) (added_same (lookup n d)))),
          empty_of_contains (removed_of d c) (λ n.
              removed-lookups V-discrete c d n
              ∙ (rw (same n) (removed_same (is_some (lookup n d))))),
          empty_of_changed (changed_of V-discrete c d) (λ n.
              changed_to-changed_of V-discrete c d n distinct
              ∙ (rw (same n) (changed_same (lookup n d)))),
        ),
      )
