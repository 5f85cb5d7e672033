-- ===== src/Rbac/FlatRules.antt =====
-- internal/rbac/defaults.go's `flatPermsToRules`: the rules of a built-in role grant what its flat
-- permissions grant.
use telekube.Base.{
  String, Bool, true, ◌≡◌, refl, sym, ap, ◌∙◌, ◌&&◌, ◌||◌, not, List, [], ◌∷◌, ◌==◌, string_keyed,
  any, contains, arith, eq_iff, same_refl, inl, inr, Bool-cases,
}
use telekube.Entity.Role.{PolicyRule, matches}
use telekube.Rbac.Defaults.{split_perm, rule_of_parts, flat_perms_to_rules}
use telekube.Rbac.Splitting.{
  undotted, split_perm-undotted, split_perm-concat, join_perm, join_perm-split_perm,
}
use telekube.Rbac.Engine.{PermissionRequest, flat_perm}
use telekube.Rbac.Decision.{applies}

-- No part is the wildcard.
abbrev pub starless : List String → Bool
starless [] = true
starless (p ∷ parts) = not (p == "*") && starless parts

abbrev pub all_starless : List String → Bool
all_starless [] = true
all_starless (p ∷ perms) = starless (split_perm p) && all_starless perms

-- The three parts of the request hold no dot.
pub record IsUndotted (req : PermissionRequest) : Type 0 where
  pub module_name : undotted req.module_name ≡ true
  pub resource : undotted req.resource ≡ true
  pub action : undotted req.action ≡ true

abbrev parts_of : PermissionRequest → List String
parts_of req = req.module_name ∷ req.resource ∷ req.action ∷ []

split_perm-flat_perm :
    (req : PermissionRequest) → IsUndotted req → split_perm (flat_perm req) ≡ parts_of req
split_perm-flat_perm req u =
    split_perm-concat _ _ u.module_name
    ∙ ap (λ ps. req.module_name ∷ ps)
        (split_perm-concat _ _ u.resource
          ∙ ap (λ ps. req.resource ∷ ps) (split_perm-undotted _ u.action))

abbrev rule_applies : PermissionRequest → List String → String → Bool
rule_applies req parts effect = any (applies req) (rule_of_parts parts effect [])

-- A rule without wildcards in its parts applies to the request of exactly these parts.
rule_applies-parts :
    (req : PermissionRequest) (parts : List String) (effect : String)
    → starless parts ≡ true
    → rule_applies req parts effect ≡ true
    → parts ≡ parts_of req
unfolding rule_of_parts matches
rule_applies-parts req (m ∷ r ∷ a ∷ []) effect h t =
    ground (arith, eq_iff m req.module_name, eq_iff r req.resource, eq_iff a req.action)
rule_applies-parts req _ effect h t = cc

rule_applies_self :
    (req : PermissionRequest) (effect : String) → rule_applies req (parts_of req) effect ≡ true
unfolding rule_of_parts matches
rule_applies_self req effect =
    ground (arith, same_refl req.module_name, same_refl req.resource, same_refl req.action)

starless_parts-flat :
    (req : PermissionRequest) (p : String) (effect : String)
    → starless (split_perm p) ≡ true
    → rule_applies req (split_perm p) effect ≡ true
    → p ≡ flat_perm req
unfolding join_perm
starless_parts-flat req p effect h t =
    sym (join_perm-split_perm p) ∙ ap join_perm (rule_applies-parts req (split_perm p) effect h t)

rule_applies-eq :
    (req : PermissionRequest) (p : String) (effect : String)
    → IsUndotted req
    → starless (split_perm p) ≡ true
    → rule_applies req (split_perm p) effect ≡ (p == flat_perm req)
rule_applies-eq req p effect u h = elim (Bool-cases (p == flat_perm req)) [
  | inl same ↦
      let e : p ≡ flat_perm req = (eq_iff p (flat_perm req)).0 same in
      rw same (
        ap (λ ps. rule_applies req ps effect) (ap split_perm e ∙ split_perm-flat_perm req u)
        ∙ rule_applies_self req effect)
  | inr other ↦ ground (arith, eq_iff p (flat_perm req), starless_parts-flat req p effect h, other)
]

any-rule_of_parts :
    (req : PermissionRequest) (parts : List String) (effect : String) (rest : List PolicyRule)
    → any (applies req) (rule_of_parts parts effect rest)
      ≡ (rule_applies req parts effect || any (applies req) rest)
unfolding rule_of_parts
any-rule_of_parts req (m ∷ r ∷ a ∷ []) effect rest = ground arith
any-rule_of_parts req _ effect rest = refl

-- For a request whose parts hold no dot, and flat permissions without "*" parts, some rule made from
-- the permissions applies exactly if the request's flat permission is one of them, whatever the
-- cluster and the namespace.
pub flat_perms_to_rules-contains :
    (req : PermissionRequest) (perms : List String) (effect : String)
    → IsUndotted req
    → all_starless perms ≡ true
    → any (applies req) (flat_perms_to_rules perms effect) ≡ contains perms (flat_perm req)
unfolding flat_perms_to_rules
flat_perms_to_rules-contains req [] effect u h = refl
flat_perms_to_rules-contains req (p ∷ perms) effect u h = ground (
  arith,
  any-rule_of_parts req (split_perm p) effect (flat_perms_to_rules perms effect),
  rule_applies-eq req p effect u,
  flat_perms_to_rules-contains req perms effect u,
)
