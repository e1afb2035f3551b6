-- ===== src/Schema/Validation/Cycles/Raised.antt =====
-- An entry of `indegree` that is raised, and an entry of `edges` that is written.
use ferris_cms.Prelude.{
  ◌≡◌, refl, ap, inl, inr, ℕ, ◌+◌, Option, none, some, List, [], ◌∷◌, ◌++◌, Text, text_eq,
  text_eq_iff, In, Bool-cases, text_eq_refl, Assoc, keys, lookup, lookup_of_In, lookup-eq-none_iff,
  insert_key, lookup-insert_key, keys-insert_key, keys-insert_key_new, insert_key_twice,
  if◌then◌else◌, arith,
}
use ferris_cms.Schema.Validation.Cycles.{targets, raise}

-- the new value of an entry that is raised
unfoldable pub raised : ℕ → Option ℕ → ℕ
raised by found = elim found [ some d ↦ d + by | none ↦ by ]

pub lookup-raise :
    (i n : Text) (by : ℕ) (m : Assoc ℕ)
    → lookup i (raise n by m) ≡ (if text_eq i n then some (raised by (lookup n m)) else lookup i m)
unfolding raise raised
lookup-raise i n by m = lookup-insert_key i n _ m

pub targets-insert_key :
    (x n : Text) (v : List Text) (edges : Assoc (List Text))
    → targets (insert_key n v edges) x ≡ (if text_eq x n then v else targets edges x)
targets-insert_key x n v edges = elim (Bool-cases (text_eq x n)) [
  | inl e ↦ rw (targets, lookup-insert_key x n v edges, e) refl
  | inr e ↦ rw (targets, lookup-insert_key x n v edges, e) refl
]

pub keys-raise : (n : Text) (by : ℕ) (m : Assoc ℕ) → In n (keys m) → keys (raise n by m) ≡ keys m
unfolding raise
keys-raise n by m h = keys-insert_key n _ m h

pub keys-raise_new :
    (n : Text) (by : ℕ) (m : Assoc ℕ) → ¬ In n (keys m) → keys (raise n by m) ≡ keys m ++ n ∷ []
unfolding raise
keys-raise_new n by m h = keys-insert_key_new n _ m h

-- An entry that is there stays as it is.
pub lookup-raise_zero :
    (i n : Text) (m : Assoc ℕ) → In n (keys m) → lookup i (raise n 0 m) ≡ lookup i m
unfolding raised
lookup-raise_zero i n m h = elim (Bool-cases (text_eq i n)) [
  | inl e ↦
      let (d, q) = lookup_of_In n m h in
      rw (lookup-raise i n 0 m, e, (text_eq_iff i n).0 e, q) (ap some (omega arith))
  | inr e ↦ rw (lookup-raise i n 0 m, e) refl
]

pub lookup-raise_new :
    (i n : Text) (by : ℕ) (m : Assoc ℕ)
    → ¬ In n (keys m)
    → lookup i (raise n by m) ≡ (if text_eq i n then some by else lookup i m)
unfolding raised
lookup-raise_new i n by m h = rw (lookup-raise i n by m, (lookup-eq-none_iff n m).1 h) refl

-- A new entry that is raised, in two steps.
raise_lem :
    (n : Text) (by : ℕ) (m : Assoc ℕ) → raise n by m ≡ insert_key n (raised by (lookup n m)) m
unfolding raise raised
raise_lem n by m = refl

pub raised_twice : (by : ℕ) (o : Option ℕ) → raised by (some (raised 0 o)) ≡ raised by o
unfolding raised
raised_twice by none = omega arith
raised_twice by (some d) = omega arith

pub raise-raise : (n : Text) (by : ℕ) (m : Assoc ℕ) → raise n by (raise n 0 m) ≡ raise n by m
raise-raise n by m =
    rw
      (
        raise_lem n by (raise n 0 m),
        lookup-raise n n 0 m,
        text_eq_refl n,
        raise_lem n 0 m,
        raise_lem n by m,
        insert_key_twice n (raised by (some (raised 0 (lookup n m)))) (raised 0 (lookup n m)) m,
      )
      (ap (λ v. insert_key n v m) (raised_twice by (lookup n m)))
