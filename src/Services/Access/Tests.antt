-- ===== src/Services/Access/Tests.antt =====
-- Runs of the permissions, and the instances of their theorems. A JSON value is its text.
use ferris_cms.Prelude.{◌≡◌, refl, ◌↔◌, ◌⊎◌, true, none, some, [], ◌∷◌, length, Text, lit, In}
use ferris_cms.Services.Database.{forbidden}
use ferris_cms.Services.Access.{
  role_super_admin, role_editor, role_author, AdminRole, Access, has_grant, can_perform,
  enforce_action, grant_content_permissions,
}
use ferris_cms.Services.Access.Grants.{IsGranted, can_perform_iff}
use ferris_cms.Services.Access.Standard.{
  IsHeld, first_three, all_five, grant_content_permissions-exact,
}

abbrev editor : AdminRole
editor = record { id = 2; name = lit "Editor"; code = role_editor; description = none }

abbrev author : AdminRole
author = record { id = 3; name = lit "Author"; code = role_author; description = none }

abbrev seeded : Access Text
seeded = record { roles = editor ∷ author ∷ []; permissions = [] }

abbrev table : Access Text
table = grant_content_permissions length 0 (lit "{}") (lit "[]") (lit "post") seeded

abbrev publish : Text
publish = lit "plugin::content-manager.explorer.publish"

editor_run : enforce_action table (some (role_editor ∷ [])) publish (lit "post") ≡ none
unfolding enforce_action grant_content_permissions
editor_run = refl

author_run : enforce_action table (some (role_author ∷ [])) publish (lit "post") ≡ some forbidden
unfolding enforce_action grant_content_permissions
author_run = refl

super_run : enforce_action table (some (role_super_admin ∷ [])) publish (lit "page") ≡ none
unfolding enforce_action
super_run = refl

can_perform_iff_example : (can_perform table (role_editor ∷ []) publish (lit "post") ≡ true) ↔ (
    In role_super_admin (role_editor ∷ [])
    ⊎ IsGranted table (role_editor ∷ []) publish (lit "post"))
can_perform_iff_example = can_perform_iff table (role_editor ∷ []) publish (lit "post")

grant_content_permissions-exact_example :
    (has_grant
        (3 ∷ [])
        publish
        (lit "post")
        (grant_content_permissions length 0 (lit "{}") (lit "[]") (lit "post") seeded).permissions
      ≡ true)
    ↔ (IsHeld (3 ∷ []) publish (lit "strapi-editor") seeded.roles all_five
        ⊎ IsHeld (3 ∷ []) publish (lit "strapi-author") seeded.roles first_three)
grant_content_permissions-exact_example =
    grant_content_permissions-exact length 0 (lit "{}") (lit "[]") (3 ∷ []) publish (lit "post")
      seeded
