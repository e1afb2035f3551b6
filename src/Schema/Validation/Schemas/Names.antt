-- ===== src/Schema/Validation/Schemas/Names.antt =====
-- The names that a set of schemas has to keep apart.
use ferris_cms.Prelude.{
  ◌≡◌, ◌≢◌, refl, ◌↔◌, ◌⊎◌, inl, inr, Bool, true, false, List, [], ◌∷◌, ◌++◌, map, Text, lit,
  contains, contains_iff, In, Nodup, Bool-cases, if◌then◌else◌,
}
use ferris_cms.Schema.Model.{Schema, table_name}
use ferris_cms.Schema.Validation.Relations.{when_iff, both_iff}
use ferris_cms.Schema.Validation.Attributes.{is_component_kind}
use ferris_cms.Schema.Validation.Schemas.{Seen, insert_name, repeated, api_id_repeated, see}

-- No name stands twice, and none was seen.
unfoldable pub IsNew : List Text → List Text → Type 0
IsNew seen names = Nodup names × ((x : Text) → In x names → ¬ In x seen)

-- The names of the content types, without the components.
unfoldable pub content_names : {V : Type 0} → (Schema V → Text) → List (Schema V) → List Text
content_names name [] = []
content_names name (s ∷ schemas) =
    let rest = content_names name schemas in
    if is_component_kind s.kind then rest else name s ∷ rest

pub In-insert_name_iff :
    (x n : Text) (seen : List Text) → In x (insert_name n seen) ↔ ((x ≡ n) ⊎ In x seen)
unfolding insert_name
In-insert_name_iff x n seen = elim (Bool-cases (contains seen n)) [
  | inl e ↦ rw e (λ h. inr h, λ h. elim h [ inl q ↦ rw q ((contains_iff seen n).0 e) | inr k ↦ k ])
  | inr e ↦ rw e (λ h. h, λ h. h)
]

pub repeated-empty_iff :
    (seen : List Text) (n path code : Text) → (repeated seen n path code ≡ []) ↔ (¬ In n seen)
unfolding repeated
repeated-empty_iff seen n path code =
    let there = contains_iff seen n in
    when_iff (contains seen n) path code
      (λ h i. absurd (cc (h, there.1 i)), λ h. absent (contains seen n) (λ e. h (there.0 e)))
  where
    absent : (b : Bool) → (b ≢ true) → b ≡ false
    absent true h = absurd (h refl)
    absent false h = refl

pub IsNew-cons_iff :
    (seen : List Text) (n : Text) (ns : List Text)
    → ((¬ In n seen) × IsNew (insert_name n seen) ns) ↔ IsNew seen (n ∷ ns)
unfolding IsNew
IsNew-cons_iff seen n ns = (
  λ (f, (d, new)). (
    ((λ i. new n i ((In-insert_name_iff n n seen).1 (inl refl))), d),
    λ x i k. elim i [
      | inl q ↦ f (rw q at k)
      | inr j ↦ new x j ((In-insert_name_iff x n seen).1 (inr k))
    ],
  ),
  λ ((f, d), new). (
    new n (inl refl),
    (
      d,
      λ x i k. elim ((In-insert_name_iff x n seen).0 k) [
        | inl q ↦ f (rw q at i)
        | inr j ↦ new x (inr i) j
      ],
    ),
  ),
)

-- the same for an api id, where `b` says that the schema is a component
pub IsNew-api_iff :
    (b : Bool) (seen : List Text) (n : Text) (ns : List Text)
    → (((b ≡ true) ⊎ (¬ In n seen)) × IsNew (if b then seen else insert_name n seen) ns)
      ↔ IsNew seen (if b then ns else n ∷ ns)
IsNew-api_iff true seen n ns = (λ (_, new). new, λ new. (inl refl, new))
IsNew-api_iff false seen n ns =
    let cons = IsNew-cons_iff seen n ns in
    (
      λ (f, new). cons.0 (elim f [ inl e ↦ absurd (cc e) | inr g ↦ g ], new),
      λ new. let (f, rest) = cons.1 new in (inr f, rest),
    )

module _ {V : Type 0} where
  pub api_id_repeated-empty_iff :
      (seen : Seen) (s : Schema V)
      → (api_id_repeated seen s ≡ []) ↔ (
          ((is_component_kind s.kind ≡ true) ⊎ (¬ In s.info.singular_name seen.singulars))
          × ((is_component_kind s.kind ≡ true) ⊎ (¬ In s.info.plural_name seen.plurals)))
  unfolding api_id_repeated
  api_id_repeated-empty_iff seen s =
      let singular =
        repeated-empty_iff seen.singulars s.info.singular_name (s.uid ++ lit ".info.singularName")
          (lit "duplicate-api-id") in
      let plural =
        repeated-empty_iff seen.plurals s.info.plural_name (s.uid ++ lit ".info.pluralName")
          (lit "duplicate-api-id") in
      elim (Bool-cases (is_component_kind s.kind)) [
        | inl e ↦ rw e (λ h. (inl refl, inl refl), λ h. refl)
        | inr e ↦
            let both = both_iff singular plural in
            rw e (
              λ h. (inr (both.0 h).0, inr (both.0 h).1),
              λ (p, q). both.1 (unless_inl p, unless_inl q),
            )
      ]
    where
      unless_inl : {P : Type 0} → (false ≡ true) ⊎ P → P
      unless_inl (inl e) = absurd (cc e)
      unless_inl (inr p) = p

  -- What the names of the schemas have to be, where some were seen.
  pub record AreNew (seen : Seen) (schemas : List (Schema V)) : Type 0 where
    pub uids : IsNew seen.uids (map (λ s. s.uid) schemas)
    pub singulars : IsNew seen.singulars (content_names (λ s. s.info.singular_name) schemas)
    pub plurals : IsNew seen.plurals (content_names (λ s. s.info.plural_name) schemas)
    pub tables : IsNew seen.tables (map table_name schemas)

  -- The names of a schema were not seen.
  pub record IsFresh (seen : Seen) (s : Schema V) : Type 0 where
    pub uid : ¬ In s.uid seen.uids
    pub singular : (is_component_kind s.kind ≡ true) ⊎ (¬ In s.info.singular_name seen.singulars)
    pub plural : (is_component_kind s.kind ≡ true) ⊎ (¬ In s.info.plural_name seen.plurals)
    pub table : ¬ In (table_name s) seen.tables

  pub AreNew-nil : (seen : Seen) → AreNew seen []
  unfolding IsNew content_names
  AreNew-nil seen = record {
    uids = (tt, λ x i. absurd i);
    singulars = (tt, λ x i. absurd i);
    plurals = (tt, λ x i. absurd i);
    tables = (tt, λ x i. absurd i);
  }

  pub AreNew-cons_iff :
      (seen : Seen) (s : Schema V) (schemas : List (Schema V))
      → (IsFresh seen s × AreNew (see seen s) schemas) ↔ AreNew seen (s ∷ schemas)
  unfolding see content_names
  AreNew-cons_iff seen s schemas =
      let b = is_component_kind s.kind in
      let names = λ (f : Schema V → Text). content_names f schemas in
      let uid = IsNew-cons_iff seen.uids s.uid (map (λ s. s.uid) schemas) in
      let singular =
        IsNew-api_iff b seen.singulars s.info.singular_name (names (λ s. s.info.singular_name)) in
      let plural =
        IsNew-api_iff b seen.plurals s.info.plural_name (names (λ s. s.info.plural_name)) in
      let table = IsNew-cons_iff seen.tables (table_name s) (map table_name schemas) in
      (
        λ (f, a). record {
          uids = uid.0 (f.uid, a.uids);
          singulars = singular.0 (f.singular, a.singulars);
          plurals = plural.0 (f.plural, a.plurals);
          tables = table.0 (f.table, a.tables);
        },
        λ a. (
          record {
            uid = (uid.1 a.uids).0;
            singular = (singular.1 a.singulars).0;
            plural = (plural.1 a.plurals).0;
            table = (table.1 a.tables).0;
          },
          record {
            uids = (uid.1 a.uids).1;
            singulars = (singular.1 a.singulars).1;
            plurals = (plural.1 a.plurals).1;
            tables = (table.1 a.tables).1;
          },
        ),
      )
