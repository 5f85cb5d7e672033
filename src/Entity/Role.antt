-- ===== src/Entity/Role.antt =====
-- internal/entity/role.go: policy rules, roles and bindings.
use telekube.Base.{
  ℕ, String, Bool, true, false, ◌&&◌, ◌||◌, Option, none, some, List, [], ◌∷◌, ltb, if◌then◌else◌,
  ◌==◌, string_keyed,
}

pub record PolicyRule : Type 0 where
  pub modules : List String
  pub resources : List String
  pub actions : List String
  pub clusters : List String
  pub namespaces : List String
  pub effect : String

-- Some entry is "*" or the value itself.
unfoldable pub matches_wildcard : List String → String → Bool
matches_wildcard [] value = false
matches_wildcard (v ∷ rest) value =
    if v == "*" || v == value then true else matches_wildcard rest value

unfoldable pub matches : PolicyRule → String → String → String → String → String → Bool
unfolding matches_wildcard
matches r module_name resource action cluster namespace =
    matches_wildcard r.modules module_name
    && (matches_wildcard r.resources resource
        && (matches_wildcard r.actions action
            && (matches_wildcard r.clusters cluster && matches_wildcard r.namespaces namespace)))

pub record Role : Type 0 where
  pub name : String
  pub display_name : String
  pub description : String
  pub rules : List PolicyRule
  pub is_builtin : Bool
  pub created_at : ℕ
  pub permissions : List String

pub record UserRoleBinding : Type 0 where
  pub id : String
  pub user_id : ℕ
  pub role_name : String
  pub expires_at : Option ℕ

-- `time.Now().After(expiry)`; a binding with no expiry never expires.
unfoldable pub is_expired : ℕ → UserRoleBinding → Bool
is_expired now b = elim b.expires_at [ none ↦ false | some t ↦ ltb t now ]
