-- ===== src/Schema/Validation/Identity.antt =====
-- crates/core-schema/src/validation.rs: the uid, the api ids and the display name of a schema.
use ferris_cms.Prelude.{
  ◌≡◌, ◌≢◌, refl, ◌↔◌, Bool, true, false, not, ◌&&◌, ◌||◌, List, [], ◌∷◌, ◌++◌, is_empty, Text, lit,
  contains, contains_iff, ◌==◌, In, arith,
}
use ferris_cms.Domain.Naming.{is_ascii_lowercase, is_ascii_digit}
use ferris_cms.Domain.Kind.{ContentTypeKind, collection_type, single_type, component}
use ferris_cms.Domain.Uid.{is_component}
use ferris_cms.Schema.Model.{Schema}
use ferris_cms.Schema.Validation.{FieldError, error, when}
use ferris_cms.Schema.Validation.Relations.{append-empty_iff}

unfoldable pub api_id_rest : Text → Bool
api_id_rest [] = true
api_id_rest (c ∷ s) = (is_ascii_lowercase c || is_ascii_digit c || c == b'-') && api_id_rest s

-- `^[a-z][a-z0-9-]*$`
unfoldable pub is_api_id : Text → Bool
unfolding api_id_rest
is_api_id [] = false
is_api_id (c ∷ s) = is_ascii_lowercase c && api_id_rest s

-- `RESERVED_API_IDS`
abbrev pub reserved_api_ids : List Text
reserved_api_ids =
    lit "admin"
    ∷ lit "api"
    ∷ lit "content-type-builder"
    ∷ lit "content-manager"
    ∷ lit "upload"
    ∷ lit "uploads"
    ∷ lit "users"
    ∷ lit "user"
    ∷ lit "auth"
    ∷ lit "i18n"
    ∷ lit "sync"
    ∷ lit "webhooks"
    ∷ []

unfoldable pub api_id_errors : Text → Text → List FieldError
unfolding is_api_id contains
api_id_errors path value =
    when (not (is_api_id value)) (error path (lit "invalid-api-id"))
    ++ when (contains reserved_api_ids value) (error path (lit "reserved-api-id"))

module _ {V : Type 0} where
  abbrev content_errors : Schema V → List FieldError
  content_errors schema =
      when (is_empty schema.info.singular_name || is_empty schema.info.plural_name)
        (error (schema.uid ++ lit ".info") (lit "missing-api-id"))
      ++ (api_id_errors (schema.uid ++ lit ".info.singularName") schema.info.singular_name
          ++ (api_id_errors (schema.uid ++ lit ".info.pluralName") schema.info.plural_name
              ++ when (is_empty schema.info.display_name)
                  (error (schema.uid ++ lit ".info.displayName") (lit "missing-display-name"))))

  abbrev identity_errors : ContentTypeKind → Schema V → List FieldError
  identity_errors component schema =
      when (not (is_component schema.uid)) (error schema.uid (lit "invalid-uid"))
  identity_errors collection_type schema = content_errors schema
  identity_errors single_type schema = content_errors schema

  unfoldable pub validate_identity : Schema V → List FieldError
  unfolding api_id_errors is_component
  validate_identity schema = identity_errors schema.kind schema

-- an api id that is free to take
pub IsApiId : Text → Type 0
IsApiId value = (is_api_id value ≡ true) × (¬ In value reserved_api_ids)

pub IsIdentified : {V : Type 0} → ContentTypeKind → Schema V → Type 0
IsIdentified component schema = is_component schema.uid ≡ true
IsIdentified _ schema =
    IsApiId schema.info.singular_name
    × IsApiId schema.info.plural_name
    × (schema.info.display_name ≢ [])

api_id_errors-empty_iff : (path value : Text) → (api_id_errors path value ≡ []) ↔ IsApiId value
unfolding api_id_errors IsApiId
api_id_errors-empty_iff path value = ground (arith, contains_iff reserved_api_ids value)

is_empty_of_IsApiId : (value : Text) → IsApiId value → is_empty value ≡ false
unfolding is_api_id IsApiId
is_empty_of_IsApiId [] (h, n) = absurd (cc h)
is_empty_of_IsApiId (c ∷ s) h = refl

when-is_empty_iff :
    (s : Text) (path code : Text) → (when (is_empty s) (error path code) ≡ []) ↔ (s ≢ [])
when-is_empty_iff [] path code = (λ h. absurd (cc h), λ n. absurd (n refl))
when-is_empty_iff (c ∷ s) path code = (λ h e. absurd (cc e), λ n. refl)

module _ {V : Type 0} where
  content_errors-empty_iff :
      (schema : Schema V)
      → (content_errors schema ≡ []) ↔ (
          IsApiId schema.info.singular_name
          × IsApiId schema.info.plural_name
          × (schema.info.display_name ≢ []))
  content_errors-empty_iff schema =
      let info = schema.info in
      let missing =
        when (is_empty info.singular_name || is_empty info.plural_name)
          (error (schema.uid ++ lit ".info") (lit "missing-api-id")) in
      let singular = api_id_errors (schema.uid ++ lit ".info.singularName") info.singular_name in
      let plural = api_id_errors (schema.uid ++ lit ".info.pluralName") info.plural_name in
      let display =
        when (is_empty info.display_name)
          (error (schema.uid ++ lit ".info.displayName") (lit "missing-display-name")) in
      let first = append-empty_iff missing (singular ++ (plural ++ display)) in
      let second = append-empty_iff singular (plural ++ display) in
      let third = append-empty_iff plural display in
      let singular_iff =
        api_id_errors-empty_iff (schema.uid ++ lit ".info.singularName") info.singular_name in
      let plural_iff =
        api_id_errors-empty_iff (schema.uid ++ lit ".info.pluralName") info.plural_name in
      let display_iff =
        when-is_empty_iff info.display_name (schema.uid ++ lit ".info.displayName")
          (lit "missing-display-name") in
      (
        λ h.
            let (s, r) = second.0 (first.0 h).1 in
            let (p, d) = third.0 r in (singular_iff.0 s, plural_iff.0 p, display_iff.0 d),
        λ (s, p, d). first.1 (
          cc (is_empty_of_IsApiId info.singular_name s, is_empty_of_IsApiId info.plural_name p),
          second.1 (singular_iff.1 s, third.1 (plural_iff.1 p, display_iff.1 d)),
        ),
      )

  identity_errors-empty_iff :
      (kind : ContentTypeKind) (schema : Schema V)
      → (identity_errors kind schema ≡ []) ↔ IsIdentified kind schema
  unfolding IsIdentified
  identity_errors-empty_iff component schema = ground arith
  identity_errors-empty_iff collection_type schema = content_errors-empty_iff schema
  identity_errors-empty_iff single_type schema = content_errors-empty_iff schema

  -- No error is reported for the identity of a schema exactly when, for a component, its uid is that
  -- of a component and, for the other kinds, both api ids are lowercase letters, digits and dashes
  -- after a letter, neither is reserved, and the display name is not empty.
  pub validate_identity-empty_iff :
      (schema : Schema V) → (validate_identity schema ≡ []) ↔ IsIdentified schema.kind schema
  unfolding validate_identity
  validate_identity-empty_iff schema = identity_errors-empty_iff schema.kind schema
