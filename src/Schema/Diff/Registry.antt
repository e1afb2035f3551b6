-- ===== src/Schema/Diff/Registry.antt =====
-- The diffs of a whole registry: one for each schema that is there before or after.
use ferris_cms.Prelude.{
  ◌≡◌, ◌≢◌, refl, ap, ◌∙◌, ◌↔◌, ◌⊎◌, inl, inr, true, Option, none, some, List, [], ◌∷◌, ◌++◌, any,
  Text, text_eq, text_eq_iff, In, In-append, Nodup, All, All-append, arith, Bool-cases,
}
use ferris_cms.Schema.Model.{Schema}
use ferris_cms.Schema.Diff.{
  SchemaDiff, removed, diff, find_schema, diff_desired, diff_missing, diff_registry,
}

abbrev pub schema_uids : {V : Type 0} → List (Schema V) → List Text
schema_uids [] = []
schema_uids (s ∷ schemas) = s.uid ∷ schema_uids schemas

abbrev pub diff_uids : {V : Type 0} → List (SchemaDiff V) → List Text
diff_uids [] = []
diff_uids (d ∷ diffs) = d.uid ∷ diff_uids diffs

any-uid :
    {V : Type 0} (u : Text) (schemas : List (Schema V))
    → (any (λ d. text_eq d.uid u) schemas ≡ true) ↔ In u (schema_uids schemas)
any-uid u [] = (λ h. cc, λ h. absurd h)
any-uid u (s ∷ schemas) = ground (arith, any-uid u schemas, text_eq_iff s.uid u)

diff_uids-append :
    {V : Type 0} (xs ys : List (SchemaDiff V)) → diff_uids (xs ++ ys) ≡ diff_uids xs ++ diff_uids ys
diff_uids-append [] ys = refl
diff_uids-append (x ∷ xs) ys = ap (λ r. x.uid ∷ r) (diff_uids-append xs ys)

Nodup-append :
    (xs ys : List Text)
    → Nodup xs
    → Nodup ys
    → ((x : Text) → In x xs → ¬ In x ys)
    → Nodup (xs ++ ys)
Nodup-append [] ys d e apart = e
Nodup-append (x ∷ xs) ys (n, d) e apart = (
  λ m. elim ((In-append x xs ys).0 m) [ inl k ↦ n k | inr k ↦ apart x (inl refl) k ],
  Nodup-append xs ys d e (λ y k. apart y (inr k)),
)

module _ {V : Type 0} (V-discrete : Discrete V) where
  uid-diff : (o : Option (Schema V)) (d : Schema V) → (diff V-discrete o d).uid ≡ d.uid
  unfolding diff
  uid-diff none d = refl
  uid-diff (some c) d = refl

  kind-diff : (o : Option (Schema V)) (d : Schema V) → (diff V-discrete o d).kind ≢ removed
  unfolding diff
  kind-diff none d = ground arith
  kind-diff (some c) d = ground arith

  diff_uids-desired :
      (current desired : List (Schema V))
      → diff_uids (diff_desired V-discrete current desired) ≡ schema_uids desired
  unfolding diff_desired
  diff_uids-desired current [] = refl
  diff_uids-desired current (d ∷ desired) =
      cc (uid-diff (find_schema V-discrete d.uid current) d, diff_uids-desired current desired)

  In-missing :
      (desired current : List (Schema V)) (u : Text)
      → In u (diff_uids (diff_missing V-discrete desired current))
        ↔ (In u (schema_uids current) × (¬ In u (schema_uids desired)))
  unfolding diff_missing
  In-missing desired [] u = (λ h. absurd h, λ h. absurd h.0)
  In-missing desired (c ∷ current) u = elim (Bool-cases (any (λ d. text_eq d.uid c.uid) desired)) [
    | inl old ↦ ground (arith, old, In-missing desired current u, any-uid c.uid desired)
    | inr gone ↦ ground (arith, gone, In-missing desired current u, any-uid c.uid desired)
  ]

  Nodup-missing :
      (desired current : List (Schema V))
      → Nodup (schema_uids current)
      → Nodup (diff_uids (diff_missing V-discrete desired current))
  unfolding diff_missing
  Nodup-missing desired [] d = tt
  Nodup-missing desired (c ∷ current) (n, d) =
      elim (Bool-cases (any (λ d. text_eq d.uid c.uid) desired)) [
        | inl old ↦ rw old (Nodup-missing desired current d)
        | inr gone ↦
            rw gone
              (λ m. n ((In-missing desired current c.uid).0 m).0, Nodup-missing desired current d)
      ]

  -- `removed` marks the uids that are not desired
  abbrev pub IsMarked : List (Schema V) → SchemaDiff V → Type 0
  IsMarked desired d = (d.kind ≡ removed) ↔ (¬ In d.uid (schema_uids desired))

  IsMarked-desired :
      (current whole desired : List (Schema V))
      → ((u : Text) → In u (schema_uids desired) → In u (schema_uids whole))
      → All (IsMarked whole) (diff_desired V-discrete current desired)
  unfolding diff_desired
  IsMarked-desired current whole [] sub = tt
  IsMarked-desired current whole (d ∷ desired) sub =
      let o = find_schema V-discrete d.uid current in
      (
        (λ e. absurd (kind-diff o d e), λ h. absurd (h (rw (uid-diff o d) (sub d.uid (inl refl))))),
        IsMarked-desired current whole desired (λ u m. sub u (inr m)),
      )

  IsMarked-missing :
      (desired current : List (Schema V))
      → All (IsMarked desired) (diff_missing V-discrete desired current)
  unfolding diff_missing
  IsMarked-missing desired [] = tt
  IsMarked-missing desired (c ∷ current) =
      elim (Bool-cases (any (λ d. text_eq d.uid c.uid) desired)) [
        | inl old ↦ rw old (IsMarked-missing desired current)
        | inr gone ↦
            rw gone (
              (λ _ m. cc ((any-uid c.uid desired).1 m), λ _. refl),
              IsMarked-missing desired current,
            )
      ]

  In-registry :
      (current desired : List (Schema V)) (u : Text)
      → In u (schema_uids desired ++ diff_uids (diff_missing V-discrete desired current))
        ↔ (In u (schema_uids current) ⊎ In u (schema_uids desired))
  In-registry current desired u = elim (Bool-cases (any (λ d. text_eq d.uid u) desired)) [
    | inl e ↦ ground (
      arith,
      e,
      any-uid u desired,
      In-missing desired current u,
      In-append u (schema_uids desired) (diff_uids (diff_missing V-discrete desired current)),
    )
    | inr e ↦ ground (
      arith,
      e,
      any-uid u desired,
      In-missing desired current u,
      In-append u (schema_uids desired) (diff_uids (diff_missing V-discrete desired current)),
    )
  ]

  -- If no uid stands twice in either registry, the diffs have each uid of the two exactly once and
  -- no other, and those marked as removed are the ones that are not desired.
  pub diff_registry-covers :
      (current desired : List (Schema V))
      → Nodup (schema_uids current)
      → Nodup (schema_uids desired)
      → Nodup (diff_uids (diff_registry V-discrete current desired))
        × ((u : Text)
            → In u (diff_uids (diff_registry V-discrete current desired))
              ↔ (In u (schema_uids current) ⊎ In u (schema_uids desired)))
        × All (IsMarked desired) (diff_registry V-discrete current desired)
  unfolding diff_registry
  diff_registry-covers current desired dc dd =
      let missing = diff_missing V-discrete desired current in
      let split =
        diff_uids-append (diff_desired V-discrete current desired) missing
        ∙ ap (λ (us : List Text). us ++ diff_uids missing) (diff_uids-desired current desired) in
      (
        rw split (
            Nodup-append (schema_uids desired) (diff_uids missing) dd
              (Nodup-missing desired current dc)
              (λ u m k. ((In-missing desired current u).0 k).1 m)),
        λ u. rw split (In-registry current desired u),
        All-append (IsMarked desired) (diff_desired V-discrete current desired) missing
            (IsMarked-desired current desired desired (λ u m. m))
            (IsMarked-missing desired current),
      )
