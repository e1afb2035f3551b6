-- ===== src/Schema/Diff/Attributes.antt =====
-- The three lists of attributes of a diff, as maps.
use mathlib.Core.Bool.{decide_iff}
use ferris_cms.Prelude.{
  ◌≡◌, refl, ◌↔◌, inl, inr, Bool, true, false, not, ◌&&◌, Option, none, some, List, [], ◌∷◌, Text,
  text_eq, text_eq_iff, contains, In, Nodup, arith, Assoc, keys, lookup, Option-cases,
  if◌then◌else◌,
}
use ferris_cms.Schema.Model.{Attribute, Attribute-discrete}
use ferris_cms.Schema.Diff.{AttrChange, added_of, removed_of, changed_of, same_attr}

abbrev pub is_some {ℓ} : {A : Type ℓ} → Option A → Bool
is_some none = false
is_some (some _) = true

pub contains-keys {ℓ} :
    {A : Type ℓ} (m : Assoc A) (n : Text) → contains (keys m) n ≡ is_some (lookup n m)
unfolding contains lookup
contains-keys [] n = refl
contains-keys ((k, v) ∷ m) n = ground (arith, contains-keys m n)

module _ {V : Type 0} where
  abbrev pub added_lookup : Option (Attribute V) → Option (Attribute V) → Option (Attribute V)
  added_lookup none a = a
  added_lookup (some _) a = none

  pub lookup-added_of :
      (current desired : Assoc (Attribute V)) (n : Text)
      → lookup n (added_of current desired) ≡ added_lookup (lookup n current) (lookup n desired)
  unfolding added_of lookup
  lookup-added_of current [] n = elim (Option-cases (lookup n current)) [
    | inl e ↦ rw e refl
    | inr (v, e) ↦ rw e refl
  ]
  lookup-added_of current ((k, a) ∷ desired) n =
      ground (arith, lookup-added_of current desired n, text_eq_iff n k)

  pub contains-removed_of :
      (desired current : Assoc (Attribute V)) (n : Text)
      → contains (removed_of desired current) n
        ≡ (contains (keys current) n && not (contains (keys desired) n))
  unfolding removed_of contains
  contains-removed_of desired [] n = refl
  contains-removed_of desired ((k, a) ∷ current) n =
      ground (arith, contains-removed_of desired current n, text_eq_iff n k)

-- the new definition in the first change of that name
abbrev pub changed_to : {V : Type 0} → Text → List (AttrChange V) → Option (Attribute V)
changed_to n [] = none
changed_to n (c ∷ cs) = if text_eq n c.name then some c.to else changed_to n cs

module _ {V : Type 0} (V-discrete : Discrete V) where
  pub same_attr_iff : (a b : Attribute V) → (same_attr V-discrete a b ≡ true) ↔ (a ≡ b)
  unfolding same_attr
  same_attr_iff a b = decide_iff (Attribute-discrete V-discrete a b)

  abbrev pub changed_lookup : Option (Attribute V) → Option (Attribute V) → Option (Attribute V)
  changed_lookup none a = none
  changed_lookup (some prev) none = none
  changed_lookup (some prev) (some attr) =
      if same_attr V-discrete prev attr then none else some attr

  changed_to-none :
      (current desired : Assoc (Attribute V)) (n : Text)
      → ¬ In n (keys desired)
      → changed_to n (changed_of V-discrete current desired) ≡ none
  unfolding changed_of
  changed_to-none current [] n h = refl
  changed_to-none current ((k, a) ∷ desired) n h =
      ground (arith, changed_to-none current desired n, text_eq_iff n k)

  pub changed_to-changed_of :
      (current desired : Assoc (Attribute V)) (n : Text)
      → Nodup (keys desired)
      → changed_to n (changed_of V-discrete current desired)
        ≡ changed_lookup (lookup n current) (lookup n desired)
  unfolding changed_of lookup
  changed_to-changed_of current [] n d = elim (Option-cases (lookup n current)) [
    | inl e ↦ rw e refl
    | inr (v, e) ↦ rw e refl
  ]
  changed_to-changed_of current ((k, a) ∷ desired) n (fresh, d) = ground (
    arith,
    changed_to-changed_of current desired n d,
    changed_to-none current desired k fresh,
    text_eq_iff n k,
  )
