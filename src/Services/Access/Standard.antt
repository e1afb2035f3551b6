-- ===== src/Services/Access/Standard.antt =====
-- The permissions on a new content type.
use ferris_cms.Prelude.{
  ℕ, ◌≡◌, refl, ap, ◌∙◌, Bool, false, not, ◌&&◌, ◌||◌, Option, none, some, List, [], ◌∷◌, ◌++◌, map,
  Text, text_eq, text_eq_iff, text_eq_refl, contains, arith, Bool-cases, inl, inr, sym, ◌⊎◌, ◌↔◌,
  ◌≢◌, true, lit, In, Option-cases, contains_iff,
}
use ferris_cms.Services.Database.{filter}
use ferris_cms.Services.Access.{
  role_editor, role_author, author_actions, editor_actions, AdminRole, AdminPermission, Access,
  contains_id, is_subject, has_grant, new_permission, add_actions, add_role, find_role,
  grant_content_permissions,
}
use ferris_cms.Services.Access.Grants.{contains_id_iff}

text_eq_comm : (s t : Text) → text_eq s t ≡ text_eq t s
text_eq_comm s t = ground (arith, text_eq_iff s t, text_eq_iff t s)

-- the role, which may be missing, is one of the ids, and the action is one of the list
abbrev pub holds : List ℕ → Text → Option AdminRole → List Text → Bool
holds ids action none actions = false
holds ids action (some role) actions = contains_id ids role.id && contains actions action

-- the first role of a list that has the code
abbrev pub IsFirst : Text → AdminRole → List AdminRole → Type 0
IsFirst code role [] = ⊥
IsFirst code role (r ∷ roles) =
    ((r.code ≡ code) × (role ≡ r)) ⊎ ((r.code ≢ code) × IsFirst code role roles)

-- The first role with the code is one of the ids, and the action is one of the list.
abbrev pub IsHeld : List ℕ → Text → Text → List AdminRole → List Text → Type 0
IsHeld ids action code roles actions =
    ((role : AdminRole) × IsFirst code role roles × In role.id ids) × In action actions

abbrev pub first_three : List Text
first_three =
    lit "plugin::content-manager.explorer.create"
    ∷ lit "plugin::content-manager.explorer.read"
    ∷ lit "plugin::content-manager.explorer.update"
    ∷ []

abbrev pub all_five : List Text
all_five =
    first_three
    ++ (lit "plugin::content-manager.explorer.delete"
        ∷ lit "plugin::content-manager.explorer.publish"
        ∷ [])

find_role_iff :
    (code : Text) (roles : List AdminRole) (role : AdminRole)
    → (find_role code roles ≡ some role) ↔ IsFirst code role roles
unfolding find_role
find_role_iff code [] role = (λ h. cc h, λ h. absurd h)
find_role_iff code (r ∷ roles) role =
    ground (arith, text_eq_iff r.code code, find_role_iff code roles role)

find_role-filter :
    (codes : List Text) (code : Text)
    → In code codes
    → (roles : List AdminRole)
    → find_role code (filter (λ r. contains codes r.code) roles) ≡ find_role code roles
unfolding find_role filter
find_role-filter codes code m [] = refl
find_role-filter codes code m (r ∷ roles) = elim (Bool-cases (contains codes r.code)) [
  | inl e ↦ rw e (rw (find_role-filter codes code m roles) refl)
  | inr e ↦
      ground (
        arith,
        find_role-filter codes code m roles,
        text_eq_iff r.code code,
        contains_iff codes code,
      )
]

some-inj : (x y : AdminRole) → some x ≡ some y → x ≡ y
some-inj x y e = cc e

holds_iff :
    (ids : List ℕ) (action code : Text) (roles : List AdminRole) (actions : List Text)
    → (holds ids action (find_role code roles) actions ≡ true)
      ↔ IsHeld ids action code roles actions
holds_iff ids action code roles actions = elim (Option-cases (find_role code roles)) [
  | inl e ↦ rw e (
    λ h. absurd (cc h),
    λ ((role, f, _), _). let g = (find_role_iff code roles role).1 f in absurd (cc (e, g)),
  )
  | inr (r, e) ↦
      let a = contains_id ids r.id in
      let b = contains actions action in
      let both : ((a && b) ≡ true) ↔ ((a ≡ true) × (b ≡ true)) = ground arith in
      rw e (
        λ h.
            let (x, y) = both.0 h in
            (
              (r, (find_role_iff code roles r).0 e, (contains_id_iff ids r.id).0 x),
              (contains_iff actions action).0 y,
            ),
        λ ((role, f, m), n).
            let g : role ≡ r = some-inj role r (sym ((find_role_iff code roles role).1 f) ∙ e) in
            both.1 ((contains_id_iff ids r.id).1 (rw (← g) m), (contains_iff actions action).1 n),
      )
]

module _ {V : Type 0} (new_id : List ℕ → ℕ) (now : ℕ) (no_properties no_conditions : V)
    (ids : List ℕ) (action uid : Text) where
  has_grant-snoc :
      (permissions : List (AdminPermission V)) (role : ℕ) (given : Text) (id : ℕ)
      → has_grant ids action uid (
          permissions
          ++ new_permission new_id now no_properties no_conditions role given uid id ∷ [])
        ≡ (has_grant ids action uid permissions || (contains_id ids role && text_eq action given))
  unfolding has_grant
  has_grant-snoc [] role given id = ground (arith, text_eq_refl uid, text_eq_comm action given)
  has_grant-snoc (p ∷ permissions) role given id =
      ground (arith, has_grant-snoc permissions role given id)

  has_grant-add_actions :
      (role : ℕ) (actions : List Text) (permissions : List (AdminPermission V))
      → has_grant ids action uid
          (add_actions new_id now no_properties no_conditions role uid actions permissions)
        ≡ (has_grant ids action uid permissions
            || (contains_id ids role && contains actions action))
  unfolding add_actions contains
  has_grant-add_actions role [] permissions = ground arith
  has_grant-add_actions role (given ∷ actions) permissions =
      has_grant-add_actions role actions (
        permissions
        ++ new_permission new_id now no_properties no_conditions role given uid
            (new_id (map (λ p. p.id) permissions))
          ∷ [])
      ∙ ground (arith, has_grant-snoc permissions role given (new_id (map (λ p. p.id) permissions)))

  has_grant-add_role :
      (role : Option AdminRole) (actions : List Text) (permissions : List (AdminPermission V))
      → has_grant ids action uid
          (add_role new_id now no_properties no_conditions role uid actions permissions)
        ≡ (has_grant ids action uid permissions || holds ids action role actions)
  has_grant-add_role none actions permissions = ground arith
  has_grant-add_role (some role) actions permissions =
      has_grant-add_actions role.id actions permissions

  has_grant-kept :
      (permissions : List (AdminPermission V))
      → has_grant ids action uid (filter (λ p. not (is_subject p.subject uid)) permissions) ≡ false
  unfolding has_grant filter
  has_grant-kept [] = refl
  has_grant-kept (p ∷ permissions) = elim (Bool-cases (is_subject p.subject uid)) [
    | inl e ↦ rw e (has_grant-kept permissions)
    | inr e ↦ rw e (ground (arith, e, has_grant-kept permissions))
  ]

  has_grant-grant_content_permissions :
      (t : Access V)
      → has_grant ids action uid
          (grant_content_permissions new_id now no_properties no_conditions uid t).permissions
        ≡ (holds ids action
              (find_role role_editor
                (filter (λ r. contains (role_editor ∷ role_author ∷ []) r.code) t.roles))
              editor_actions
            || holds ids action
                (find_role role_author
                  (filter (λ r. contains (role_editor ∷ role_author ∷ []) r.code) t.roles))
                author_actions)
  unfolding grant_content_permissions
  has_grant-grant_content_permissions t =
      let roles = filter (λ r. contains (role_editor ∷ role_author ∷ []) r.code) t.roles in
      let kept = filter (λ p. not (is_subject p.subject uid)) t.permissions in
      let author = find_role role_author roles in
      let editor = find_role role_editor roles in
      let first = add_role new_id now no_properties no_conditions editor uid editor_actions kept in
      has_grant-add_role author author_actions first
      ∙ ap (λ b. b || holds ids action author author_actions)
          (has_grant-add_role editor editor_actions kept)
      ∙ ap
          (λ b.
            (b || holds ids action editor editor_actions) || holds ids action author author_actions)
          (has_grant-kept t.permissions)

  -- After the standard permissions are granted, whatever was there before, one of the given roles has
  -- a permission for the action on the content type exactly if it is the first role with the code
  -- `strapi-editor` and the action is create, read, update, delete or publish, or it is the first role
  -- with the code `strapi-author` and the action is create, read or update.
  pub grant_content_permissions-exact :
      (t : Access V)
      → (has_grant ids action uid
            (grant_content_permissions new_id now no_properties no_conditions uid t).permissions
          ≡ true)
        ↔ (IsHeld ids action (lit "strapi-editor") t.roles all_five
            ⊎ IsHeld ids action (lit "strapi-author") t.roles first_three)
  grant_content_permissions-exact t =
      let codes = role_editor ∷ role_author ∷ [] in
      rw (has_grant-grant_content_permissions t) (
        rw (find_role-filter codes role_editor (inl refl) t.roles) (
          rw (find_role-filter codes role_author (inr (inl refl)) t.roles) (
            ground (
              arith,
              holds_iff ids action role_editor t.roles editor_actions,
              holds_iff ids action role_author t.roles author_actions,
            ))))
