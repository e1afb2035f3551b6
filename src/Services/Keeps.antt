-- ===== src/Services/Keeps.antt =====
-- Invariants of the database along the service operations.
use ferris_cms.Prelude.{
  ℕ, ◌≡◌, refl, sym, Bool, true, false, Option, none, some, List, [], ◌∷◌, ◌==◌, All, Bool-cases,
  inl, inr, Text, ==_iff, if◌then◌else◌,
}
use ferris_cms.Services.Database.{
  ServiceError, Db, Result, ok, err, found, Service, lift, after, ◌>>=◌, find_row, update_row,
  filter, Env,
}
use ferris_cms.Workflow.Model.{OwsDocument}
use ferris_cms.Services.Workflows.{enforce, created_document}

-- the invariant holds after an operation, and what is said of its value where it succeeds
abbrev pub Post : {V A : Type 0} → (Db V → Type 0) → (A → Type 0) → Result A × Db V → Type 0
Post I Q (ok a, s) = I s × Q a
Post I Q (err e, s) = I s

-- nothing is said of a value
abbrev pub Anything : {A : Type 0} → A → Type 0
Anything a = Unit

module _ {V : Type 0} (I : Db V → Type 0) where
  abbrev pub Keeps : {A : Type 0} → (A → Type 0) → Service V A → Type 0
  Keeps Q m = (s : Db V) → I s → Post I Q (m s)

  pub Keeps-bind :
      {A B : Type 0} (Q : A → Type 0) (R : B → Type 0) (m : Service V A) (k : A → Service V B)
      → Keeps Q m
      → ((a : A) → Q a → Keeps R (k a))
      → Keeps R (m >>= k)
  Keeps-bind {A = A} {B = B} Q R m k h g s i = go (m s) (h s i)
    where
      go : (r : Result A × Db V) → Post I Q r → Post I R (after r k)
      go (ok a, t) (j, q) = g a q t j
      go (err e, t) j = j

  pub Keeps-lift :
      {A : Type 0} (Q : A → Type 0) (r : Result A) → ((a : A) → r ≡ ok a → Q a) → Keeps Q (lift r)
  Keeps-lift Q (ok a) h s i = (i, h a refl)
  Keeps-lift Q (err e) h s i = i

  pub Keeps-enforce : (env : Env V) (action : Text) → Keeps (λ _. Unit) (enforce env action)
  unfolding enforce
  Keeps-enforce env action s i = go (env.enforce_action action)
    where
      go :
          (o : Option ServiceError)
          → Post I
              (λ _. Unit)
              (elim o as (λ _. Result Unit × Db V) [ some e ↦ (err e, s) | none ↦ (ok tt, s) ])
      go none = (i, tt)
      go (some e) = i

  -- an operation behind a permission
  pub Keeps-guarded :
      {B : Type 0} (env : Env V) (R : B → Type 0) (action : Text) (k : Unit → Service V B)
      → ((u : Unit) → Keeps R (k u))
      → Keeps R (enforce env action >>= k)
  Keeps-guarded env R action k h =
      Keeps-bind Anything R (enforce env action) k (Keeps-enforce env action) (λ u _. h u)

  pub lift-Keeps : {A : Type 0} (r : Result A) → Keeps Anything (lift r)
  lift-Keeps r = Keeps-lift Anything r λ a e. tt

  -- of any result, the invariant itself
  pub Post-holds : {A : Type 0} (Q : A → Type 0) (r : Result A × Db V) → Post I Q r → I r.1
  Post-holds Q (ok a, s) h = h.0
  Post-holds Q (err e, s) h = h

pub ok-inj : {A : Type 0} (x y : A) → ok x ≡ ok y → x ≡ y
ok-inj x y e = cc e

-- a row that is found under an id has that id
pub found-id :
    {A : Type 0} (id_of : A → ℕ) (id : ℕ) (rows : List A) (message : Text) (r : A)
    → found (find_row id_of id rows) message ≡ ok r
    → id_of r ≡ id
unfolding find_row
found-id id_of id [] message r e = absurd (cc e)
found-id id_of id (x ∷ rows) message r e =
    go (id_of x == id) ((==_iff (id_of x) id).0) (found-id id_of id rows message r) e
  where
    go :
        (b : Bool)
        → (b ≡ true → id_of x ≡ id)
        → (found (find_row id_of id rows) message ≡ ok r → id_of r ≡ id)
        → found (if b then some x else find_row id_of id rows) message ≡ ok r
        → id_of r ≡ id
    go true h rest q = rw (ok-inj r x (sym q)) (h refl)
    go false h rest q = rest q

module _ {A : Type 0} (id_of : A → ℕ) (P : A → Type 0) where
  pub find_row-holds :
      (id : ℕ) (rows : List A) (message : Text) (r : A)
      → All P rows
      → found (find_row id_of id rows) message ≡ ok r
      → P r
  unfolding find_row
  find_row-holds id [] message r h e = absurd (cc e)
  find_row-holds id (x ∷ rows) message r (p, h) e =
      go (id_of x == id) (λ q. find_row-holds id rows message r h q) e
    where
      go :
          (b : Bool)
          → (found (find_row id_of id rows) message ≡ ok r → P r)
          → found (if b then some x else find_row id_of id rows) message ≡ ok r
          → P r
      go true rest q = rw (ok-inj r x (sym q)) p
      go false rest q = rest q

  pub update_row-All :
      (id : ℕ) (new : A) (rows : List A) → All P rows → P new → All P (update_row id_of id new rows)
  unfolding update_row
  update_row-All id new [] h p = tt
  update_row-All id new (x ∷ rows) (q, h) p = elim (Bool-cases (id_of x == id)) [
    | inl e ↦ rw e (p, update_row-All id new rows h p)
    | inr e ↦ rw e (q, update_row-All id new rows h p)
  ]

-- a document is created with the id 0
pub id-created_document :
    {V : Type 0} (env : Env V) (name : Text) (desc : Option Text) (def : Option (OwsDocument V))
    → (created_document env name desc def).id ≡ 0
id-created_document env name none def = refl
id-created_document env name (some t) def = refl

pub filter-All :
    {A : Type 0} (P : A → Type 0) (keep : A → Bool) (xs : List A)
    → All P xs
    → All P (filter keep xs)
unfolding filter
filter-All P keep [] h = tt
filter-All P keep (x ∷ xs) (p, h) = elim (Bool-cases (keep x)) [
  | inl e ↦ rw e (p, filter-All P keep xs h)
  | inr e ↦ rw e (filter-All P keep xs h)
]
