-- ===== src/Services/Access/Grants.antt =====
-- When a user may perform an action.
use ferris_cms.Prelude.{
  ℕ, ◌≡◌, refl, ap, ◌∙◌, ◌↔◌, ◌⊎◌, inl, inr, Bool, true, ◌&&◌, Option, none, some, List, [], ◌∷◌,
  any, map, Text, text_eq, text_eq_iff, contains, contains_iff, ==_iff, In, arith, Bool-cases,
  if◌then◌else◌,
}
use ferris_cms.Services.Database.{filter}
use ferris_cms.Services.Access.{
  role_super_admin, subject_wildcard, AdminRole, AdminPermission, Access, contains_id, is_subject,
  role_id, resolve_role_ids, has_grant, granted, can_perform,
}

pub contains_id_iff : (ids : List ℕ) (id : ℕ) → (contains_id ids id ≡ true) ↔ In id ids
contains_id_iff [] id = (λ h. cc h, λ h. absurd h)
contains_id_iff (i ∷ ids) id = ground (arith, contains_id_iff ids id, ==_iff i id)

is_subject_iff : (o : Option Text) (s : Text) → (is_subject o s ≡ true) ↔ (o ≡ some s)
is_subject_iff none s = (λ h. absurd (cc h), λ h. absurd (cc h))
is_subject_iff (some t) s =
    (λ h. ap some ((text_eq_iff t s).0 h), λ h. (text_eq_iff t s).1 (some-inj t s h))
  where
    some-inj : (x y : Text) → some x ≡ some y → x ≡ y
    some-inj x y e = cc e

any_iff :
    {A : Type 0} (p : A → Bool) (xs : List A)
    → (any p xs ≡ true) ↔ ((x : A) × In x xs × (p x ≡ true))
any_iff p [] = (λ h. absurd (cc h), λ (x, m, e). absurd m)
any_iff p (x ∷ xs) = elim (Bool-cases (p x)) [
  | inl e ↦ (λ h. (x, inl refl, e), λ h. rw e refl)
  | inr e ↦ rw e (
    λ h. let (y, m, q) = (any_iff p xs).0 h in (y, inr m, q),
    λ (y, m, q). elim m [ inl k ↦ absurd (cc (e, k, q)) | inr l ↦ (any_iff p xs).1 (y, l, q) ],
  )
]

-- the ids of the roles with one of the codes
ids_iff :
    (codes : List Text) (roles : List AdminRole) (id : ℕ)
    → In id (map role_id (filter (λ r. contains codes r.code) roles))
      ↔ ((r : AdminRole) × In r roles × In r.code codes × (id ≡ r.id))
unfolding filter
ids_iff codes [] id = (λ h. absurd h, λ (r, m, _, _). absurd m)
ids_iff codes (r ∷ roles) id = elim (Bool-cases (contains codes r.code)) [
  | inl e ↦ rw e (
    λ h. elim h [
      | inl q ↦ (r, inl refl, (contains_iff codes r.code).0 e, q)
      | inr m ↦ let (x, k, c, q) = (ids_iff codes roles id).0 m in (x, inr k, c, q)
    ],
    λ (x, k, c, q). elim k [
      | inl u ↦ inl (q ∙ ap role_id u)
      | inr l ↦ inr ((ids_iff codes roles id).1 (x, l, c, q))
    ],
  )
  | inr e ↦ rw e (
    λ h. let (x, k, c, q) = (ids_iff codes roles id).0 h in (x, inr k, c, q),
    λ (x, k, c, q). elim k [
      | inl u ↦ absurd (cc (e, (contains_iff codes r.code).1 (rw (← u) c)))
      | inr l ↦ (ids_iff codes roles id).1 (x, l, c, q)
    ],
  )
]

module _ {V : Type 0} (t : Access V) where
  -- a row for one of the ids
  IsRow : List ℕ → Text → Text → AdminPermission V → Type 0
  IsRow ids action subject p = In p.role_id ids × (p.action ≡ action) × (p.subject ≡ some subject)

  IsRow-iff :
      (ids : List ℕ) (action subject : Text) (p : AdminPermission V)
      → ((contains_id ids p.role_id && text_eq p.action action && is_subject p.subject subject)
          ≡ true)
        ↔ IsRow ids action subject p
  unfolding IsRow
  IsRow-iff ids action subject p = ground (
    arith,
    contains_id_iff ids p.role_id,
    text_eq_iff p.action action,
    is_subject_iff p.subject subject,
  )

  has_grant_iff :
      (ids : List ℕ) (action subject : Text) (permissions : List (AdminPermission V))
      → (has_grant ids action subject permissions ≡ true)
        ↔ ((p : AdminPermission V) × In p permissions × IsRow ids action subject p)
  unfolding has_grant
  has_grant_iff ids action subject permissions =
      let iff =
        any_iff
          (λ p.
            contains_id ids p.role_id && text_eq p.action action && is_subject p.subject subject)
          permissions in
      (
        λ h. let (p, m, e) = iff.0 h in (p, m, (IsRow-iff ids action subject p).0 e),
        λ (p, m, r). iff.1 (p, m, (IsRow-iff ids action subject p).1 r),
      )

  -- one of the roles of the user has a row for the action, on the subject or on all subjects
  pub IsGranted : List Text → Text → Text → Type 0
  IsGranted codes action subject =
      (r : AdminRole) × (p : AdminPermission V) × In r t.roles
      × In r.code codes
      × In p t.permissions
      × (p.role_id ≡ r.id)
      × (p.action ≡ action)
      × ((p.subject ≡ some subject) ⊎ (p.subject ≡ some subject_wildcard))

  resolved_iff :
      (c : Text) (codes : List Text) (id : ℕ)
      → In id (resolve_role_ids t (c ∷ codes))
        ↔ ((r : AdminRole) × In r t.roles × In r.code (c ∷ codes) × (id ≡ r.id))
  unfolding resolve_role_ids
  resolved_iff c codes id = ids_iff (c ∷ codes) t.roles id

  HasRow : List ℕ → Text → Text → Type 0
  HasRow ids action subject =
      (p : AdminPermission V) × In p t.permissions
      × In p.role_id ids
      × (p.action ≡ action)
      × ((p.subject ≡ some subject) ⊎ (p.subject ≡ some subject_wildcard))

  one_of :
      (ids : List ℕ) (action subject : Text)
      → ((if has_grant ids action subject t.permissions
            then true
            else has_grant ids action subject_wildcard t.permissions)
          ≡ true)
        ↔ HasRow ids action subject
  unfolding HasRow IsRow
  one_of ids action subject =
      let exact = has_grant_iff ids action subject t.permissions in
      let wild = has_grant_iff ids action subject_wildcard t.permissions in
      (
        λ h. elim (Bool-cases (has_grant ids action subject t.permissions)) [
          | inl e ↦ let (p, m, (i, a, q)) = exact.0 e in (p, m, i, a, inl q)
          | inr e ↦ let (p, m, (i, a, q)) = wild.0 (ground (arith, e, h)) in (p, m, i, a, inr q)
        ],
        λ (p, m, i, a, q). elim q [
          | inl s ↦ rw (exact.1 (p, m, (i, a, s))) refl
          | inr s ↦ ground (arith, wild.1 (p, m, (i, a, s)))
        ],
      )

  granted_iff :
      (ids : List ℕ) (action subject : Text)
      → (granted ids t action subject ≡ true) ↔ HasRow ids action subject
  unfolding HasRow
  granted_iff [] action subject = (λ h. absurd (cc h), λ (p, m, i, a, q). absurd i)
  granted_iff (i ∷ ids) action subject = one_of (i ∷ ids) action subject

  -- A user may perform an action on a subject exactly if it is a super administrator, or one of its
  -- roles has a permission for the action, on this subject or on all of them.
  pub can_perform_iff :
      (codes : List Text) (action subject : Text)
      → (can_perform t codes action subject ≡ true)
        ↔ (In role_super_admin codes ⊎ IsGranted codes action subject)
  unfolding can_perform IsGranted HasRow
  can_perform_iff [] action subject = (
    λ h. absurd (cc h),
    λ h. elim h [ inl m ↦ absurd m | inr (r, p, k, d, m, u, a, q) ↦ absurd d ],
  )
  can_perform_iff (c ∷ codes) action subject =
      elim (Bool-cases (contains (c ∷ codes) role_super_admin)) [
        | inl e ↦ (λ h. inl ((contains_iff (c ∷ codes) role_super_admin).0 e), λ h. rw e refl)
        | inr e ↦
            let iff = granted_iff (resolve_role_ids t (c ∷ codes)) action subject in
            (
              λ h.
                  let (p, m, i, a, q) = iff.0 (ground (arith, e, h)) in
                  let (r, k, d, u) = (resolved_iff c codes p.role_id).0 i in
                  inr (r, p, k, d, m, u, a, q),
              λ h. elim h [
                | inl m ↦ absurd (cc (e, (contains_iff (c ∷ codes) role_super_admin).1 m))
                | inr (r, p, k, d, m, u, a, q) ↦
                    rw e (iff.1 (p, m, (resolved_iff c codes p.role_id).1 (r, k, d, u), a, q))
              ],
            )
      ]
