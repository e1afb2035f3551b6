-- ===== src/Prelude/Maps.antt =====
-- Maps with text keys, as association lists.
use mathlib.Core.Path.{◌≡◌, refl}
use mathlib.Core.Logic.{◌↔◌, ◌⊎◌, inl, inr}
use mathlib.Core.Bool.{Bool, true, false}
use mathlib.Core.Option.{Option, none, some}
use mathlib.Core.List.{List, [], ◌∷◌, ◌++◌}
use native.Mathlib.Omega.{arith}
use ferris_cms.Prelude.Tests.{if◌then◌else◌}
use ferris_cms.Prelude.Lists.{In, length}
use ferris_cms.Prelude.Texts.{Text, text_eq, text_eq_iff}

abbrev pub Assoc {ℓ} : Type ℓ → Type ℓ
Assoc V = List (Text × V)

module _ {ℓ} {V : Type ℓ} where
  abbrev pub keys : Assoc V → List Text
  keys [] = []
  keys ((k, v) ∷ m) = k ∷ keys m

  pub length-keys : (m : Assoc V) → length (keys m) ≡ length m
  length-keys [] = refl
  length-keys ((k, v) ∷ m) = omega (arith, length-keys m)

  unfoldable pub lookup : Text → Assoc V → Option V
  lookup k [] = none
  lookup k ((j, v) ∷ m) = if text_eq k j then some v else lookup k m

  pub In-lookup : (k : Text) (m : Assoc V) (v : V) → lookup k m ≡ some v → In k (keys m)
  unfolding lookup
  In-lookup k [] v h = cc
  In-lookup k ((j, w) ∷ m) v h = ground (arith, text_eq_iff k j, In-lookup k m v)

  pub lookup_of_In : (k : Text) (m : Assoc V) → In k (keys m) → (v : V) × (lookup k m ≡ some v)
  unfolding lookup
  lookup_of_In k [] h = absurd h
  lookup_of_In k ((j, w) ∷ m) (inl e) = (w, ground (arith, text_eq_iff k j))
  lookup_of_In k ((j, w) ∷ m) (inr h) = go (text_eq k j) refl (lookup_of_In k m h)
    where
      go :
          (b : Bool)
          → text_eq k j ≡ b
          → (v : V) × (lookup k m ≡ some v)
          → (v : V) × ((if text_eq k j then some w else lookup k m) ≡ some v)
      go true e rest = (w, rw e)
      go false e (v, q) = (v, rw e q)

  pub lookup-eq-none_iff : (k : Text) (m : Assoc V) → (lookup k m ≡ none) ↔ (¬ In k (keys m))
  unfolding lookup
  lookup-eq-none_iff k [] = (λ h e. e, λ h. refl)
  lookup-eq-none_iff k ((j, w) ∷ m) = ground (arith, text_eq_iff k j, lookup-eq-none_iff k m)

  -- `insert` of a `HashMap`: a key that is there keeps its place.
  unfoldable pub insert_key : Text → V → Assoc V → Assoc V
  insert_key k v [] = (k, v) ∷ []
  insert_key k v ((j, w) ∷ m) = if text_eq k j then (j, v) ∷ m else (j, w) ∷ insert_key k v m

  pub lookup-insert_key :
      (i k : Text) (v : V) (m : Assoc V)
      → lookup i (insert_key k v m) ≡ (if text_eq i k then some v else lookup i m)
  unfolding insert_key lookup
  lookup-insert_key i k v [] = refl
  lookup-insert_key i k v ((j, w) ∷ m) =
      ground (arith, text_eq_iff i k, text_eq_iff k j, text_eq_iff i j, lookup-insert_key i k v m)

  -- A key that is there adds none; a new one is added at the end.
  pub keys-insert_key :
      (k : Text) (v : V) (m : Assoc V) → In k (keys m) → keys (insert_key k v m) ≡ keys m
  unfolding insert_key
  keys-insert_key k v [] h = absurd h
  keys-insert_key k v ((j, w) ∷ m) h = ground (arith, text_eq_iff k j, keys-insert_key k v m)

  pub keys-insert_key_new :
      (k : Text) (v : V) (m : Assoc V)
      → ¬ In k (keys m)
      → keys (insert_key k v m) ≡ keys m ++ k ∷ []
  unfolding insert_key
  keys-insert_key_new k v [] h = refl
  keys-insert_key_new k v ((j, w) ∷ m) h =
      ground (arith, text_eq_iff k j, keys-insert_key_new k v m)

  pub insert_key_twice :
      (k : Text) (v w : V) (m : Assoc V) → insert_key k v (insert_key k w m) ≡ insert_key k v m
  unfolding insert_key
  insert_key_twice k v w [] = ground (arith, text_eq_iff k k)
  insert_key_twice k v w ((j, u) ∷ m) = ground (arith, text_eq_iff k j, insert_key_twice k v w m)

  pub In-keys-insert_key_iff :
      (i k : Text) (v : V) (m : Assoc V)
      → In i (keys (insert_key k v m)) ↔ (In i (keys m) ⊎ (i ≡ k))
  unfolding insert_key
  In-keys-insert_key_iff i k v [] = ground arith
  In-keys-insert_key_iff i k v ((j, u) ∷ m) =
      ground (arith, text_eq_iff k j, In-keys-insert_key_iff i k v m)
