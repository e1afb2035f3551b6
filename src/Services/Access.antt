-- ===== src/Services/Access.antt =====
-- crates/services/src/rbac.rs: the permissions of the administrators, one row for a role, an action and
-- a subject. `V` is the type of JSON values.
pub mod Grants
pub mod Standard
mod Tests
use ferris_cms.Prelude.{
  ℕ, Bool, true, false, not, ◌&&◌, ◌||◌, Option, none, some, List, [], ◌∷◌, ◌++◌, is_empty, any,
  map, Text, lit, text_eq, contains, ◌==◌, if◌then◌else◌,
}
use ferris_cms.Services.Database.{ServiceError, forbidden, filter}

abbrev pub role_super_admin : Text
role_super_admin = lit "strapi-super-admin"

abbrev pub role_editor : Text
role_editor = lit "strapi-editor"

abbrev pub role_author : Text
role_author = lit "strapi-author"

abbrev explorer_create : Text
explorer_create = lit "plugin::content-manager.explorer.create"

abbrev explorer_read : Text
explorer_read = lit "plugin::content-manager.explorer.read"

abbrev explorer_update : Text
explorer_update = lit "plugin::content-manager.explorer.update"

abbrev explorer_delete : Text
explorer_delete = lit "plugin::content-manager.explorer.delete"

abbrev explorer_publish : Text
explorer_publish = lit "plugin::content-manager.explorer.publish"

-- `action::AUTHOR` and `action::EDITOR`
abbrev pub author_actions : List Text
author_actions = explorer_create ∷ explorer_read ∷ explorer_update ∷ []

abbrev pub editor_actions : List Text
editor_actions =
    explorer_create ∷ explorer_read ∷ explorer_update ∷ explorer_delete ∷ explorer_publish ∷ []

abbrev pub subject_wildcard : Text
subject_wildcard = lit "*"

-- `admin_role::Model`
pub record AdminRole : Type 0 where
  pub id : ℕ
  pub name : Text
  pub code : Text
  pub description : Option Text

-- `admin_permission::Model`
pub record AdminPermission (V : Type 0) : Type 0 where
  pub id : ℕ
  pub role_id : ℕ
  pub action : Text
  pub subject : Option Text
  pub properties_json : V
  pub conditions_json : V
  pub created_at : ℕ
  pub updated_at : ℕ

-- the two tables
pub record Access (V : Type 0) : Type 0 where
  pub roles : List AdminRole
  pub permissions : List (AdminPermission V)

-- `is_in` of ids
abbrev pub contains_id : List ℕ → ℕ → Bool
contains_id [] id = false
contains_id (i ∷ ids) id = i == id || contains_id ids id

abbrev pub is_subject : Option Text → Text → Bool
is_subject none subject = false
is_subject (some s) subject = text_eq s subject

abbrev pub role_id : AdminRole → ℕ
role_id r = r.id

-- `roles.iter().find(|r| r.code == code)`
unfoldable pub find_role : Text → List AdminRole → Option AdminRole
unfolding text_eq
find_role code [] = none
find_role code (r ∷ roles) =
    let rest = find_role code roles in if text_eq r.code code then some r else rest

module _ {V : Type 0} where
  unfoldable pub resolve_role_ids : Access V → List Text → List ℕ
  unfolding filter contains
  resolve_role_ids t codes =
      if is_empty codes then [] else map role_id (filter (λ r. contains codes r.code) t.roles)

  -- one of the counts is positive
  unfoldable pub has_grant : List ℕ → Text → Text → List (AdminPermission V) → Bool
  unfolding text_eq
  has_grant ids action subject permissions =
      any
        (λ p. contains_id ids p.role_id && text_eq p.action action && is_subject p.subject subject)
        permissions

  abbrev pub granted : List ℕ → Access V → Text → Text → Bool
  granted ids t action subject =
      if is_empty ids
      then false
      else if has_grant ids action subject t.permissions
      then true
      else has_grant ids action subject_wildcard t.permissions

  -- `can_perform`, of the role codes of the user
  unfoldable pub can_perform : Access V → List Text → Text → Text → Bool
  unfolding resolve_role_ids has_grant contains
  can_perform t roles action subject =
      if contains roles role_super_admin
      then true
      else if is_empty roles
      then false
      else granted (resolve_role_ids t roles) t action subject

  -- the error, if there is one; `none` is a request without a user
  unfoldable pub enforce_action : Access V → Option (List Text) → Text → Text → Option ServiceError
  unfolding can_perform
  enforce_action t none action subject = none
  enforce_action t (some roles) action subject =
      if not (can_perform t roles action subject) then some forbidden else none

  -- `json!({})` and `json!([])`, the clock, and the id of a new row
  module _ (new_id : List ℕ → ℕ) (now : ℕ) (no_properties no_conditions : V) where
    abbrev pub permission_id : AdminPermission V → ℕ
    permission_id p = p.id

    abbrev pub new_permission : ℕ → Text → Text → ℕ → AdminPermission V
    new_permission role action uid id = record {
      id = id;
      role_id = role;
      action = action;
      subject = some uid;
      properties_json = no_properties;
      conditions_json = no_conditions;
      created_at = now;
      updated_at = now;
    }

    unfoldable pub add_actions :
        ℕ → Text → List Text → List (AdminPermission V) → List (AdminPermission V)
    add_actions role uid [] permissions = permissions
    add_actions role uid (action ∷ actions) permissions = add_actions role uid actions (
        permissions ++ new_permission role action uid (new_id (map permission_id permissions)) ∷ [])

    abbrev pub add_role :
        Option AdminRole → Text → List Text → List (AdminPermission V) → List (AdminPermission V)
    add_role none uid actions permissions = permissions
    add_role (some role) uid actions permissions = add_actions role.id uid actions permissions

    unfoldable pub grant_content_permissions : Text → Access V → Access V
    unfolding add_actions find_role filter contains text_eq
    grant_content_permissions uid t =
        let roles = filter (λ r. contains (role_editor ∷ role_author ∷ []) r.code) t.roles in
        let kept = filter (λ p. not (is_subject p.subject uid)) t.permissions in
        record t {
          permissions =
              add_role (find_role role_author roles) uid author_actions
                (add_role (find_role role_editor roles) uid editor_actions kept);
        }
