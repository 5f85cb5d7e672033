-- ===== src/Rbac/Decision.antt =====
-- The decision of internal/rbac/engine.go's `Authorize` against a description that has no loops.
use telekube.Base.{
  ℕ, Bool, true, false, ◌≡◌, refl, ◌&&◌, Option, none, some, List, [], ◌∷◌, ◌++◌, ◌==◌,
  string_keyed, if◌then◌else◌, any, any-append, any-Perm, Result, ok, err, arith,
}
use mathlib.Core.List.{Perm}
use telekube.Entity.Role.{PolicyRule, matches, UserRoleBinding, is_expired}
use telekube.Rbac.Repository.{RbacRepository}
use telekube.Rbac.Engine.{
  PermissionRequest, Engine, Scan, denied, seen, scan_rules, scan_bindings, bindings_decision,
  authorize, has_permission, is_super_admin, flat_perm,
}

abbrev pub applies : PermissionRequest → PolicyRule → Bool
applies req rule = matches rule req.module_name req.resource req.action req.cluster req.namespace

abbrev pub denies : PermissionRequest → PolicyRule → Bool
denies req rule = applies req rule && rule.effect == "deny"

-- Deny overrides allow, and rules that do not apply decide nothing.
abbrev pub verdict : PermissionRequest → List PolicyRule → Option Bool
verdict req rules =
    if any (denies req) rules
    then some false
    else if any (applies req) rules
    then some true
    else none

abbrev scanned : PermissionRequest → List PolicyRule → Bool → Bool → Scan
scanned req rules allowed has_any =
    if any (denies req) rules
    then denied
    else if any (applies req) rules
    then seen true true
    else seen allowed has_any

scan_rules-scanned :
    (req : PermissionRequest) (rules : List PolicyRule) (allowed has_any : Bool)
    → scan_rules rules req allowed has_any ≡ scanned req rules allowed has_any
unfolding scan_rules
scan_rules-scanned req [] allowed has_any = refl
scan_rules-scanned req (rule ∷ rest) allowed has_any =
    ground
      (arith, scan_rules-scanned req rest allowed has_any, scan_rules-scanned req rest true true)

module _ {S : Type 0} (repo : RbacRepository S) (s : S) (now : ℕ) where
  -- The rules that a binding stands for: none if it has expired or its role cannot be read.
  abbrev pub rules_of : UserRoleBinding → List PolicyRule
  rules_of b =
      if is_expired now b
      then []
      else elim (repo.get_role s b.role_name) [ err e ↦ [] | ok role ↦ role.rules ]

  abbrev pub live_rules : List UserRoleBinding → List PolicyRule
  live_rules [] = []
  live_rules (b ∷ rest) = rules_of b ++ live_rules rest

  scan_bindings-scanned :
      (req : PermissionRequest) (bs : List UserRoleBinding) (allowed has_any : Bool)
      → scan_bindings repo s now req bs allowed has_any
        ≡ scanned req (live_rules bs) allowed has_any
  unfolding scan_bindings
  scan_bindings-scanned req [] allowed has_any = refl
  scan_bindings-scanned req (b ∷ rest) allowed has_any = ground (
    arith,
    any-append (denies req) (rules_of b) (live_rules rest),
    any-append (applies req) (rules_of b) (live_rules rest),
    scan_rules-scanned req (rules_of b) allowed has_any,
    scan_bindings-scanned req rest allowed has_any,
    scan_bindings-scanned req rest true true,
  )

  -- What the bindings decide is the verdict on all rules of the live bindings.
  bindings_decision-verdict :
      (req : PermissionRequest) (bs : List UserRoleBinding)
      → bindings_decision repo s now req (ok bs) ≡ verdict req (live_rules bs)
  unfolding bindings_decision
  bindings_decision-verdict req bs = ground (arith, scan_bindings-scanned req bs false false)

  -- The rules that a read of bindings stands for: none if it failed.
  abbrev pub read_rules : Result (List UserRoleBinding) → List PolicyRule
  read_rules (err e) = []
  read_rules (ok bs) = live_rules bs

  bindings_decision-read :
      (req : PermissionRequest) (r : Result (List UserRoleBinding))
      → bindings_decision repo s now req r ≡ verdict req (read_rules r)
  unfolding bindings_decision
  bindings_decision-read req (err e) = refl
  bindings_decision-read req (ok bs) = bindings_decision-verdict req bs

  -- `Authorize` lets a super admin do everything; for all others it returns the verdict on the rules
  -- of the live bindings (deny over allow) if a rule applies, and the legacy check's answer if none
  -- does. A failed read of the bindings counts as no bindings.
  pub authorize-verdict :
      (e : Engine) (user_id : ℕ) (req : PermissionRequest)
      → authorize repo e s now user_id req ≡ (
          if is_super_admin e user_id
          then ok true
          else elim (verdict req (read_rules (repo.get_user_role_bindings s user_id))) [
            | some allowed ↦ ok allowed
            | none ↦ has_permission repo e s user_id (flat_perm req)
          ])
  unfolding authorize
  authorize-verdict e user_id req =
      ground (arith, bindings_decision-read req (repo.get_user_role_bindings s user_id))

  any-live_rules :
      (p : PolicyRule → Bool) (bs : List UserRoleBinding)
      → any p (live_rules bs) ≡ any (λ b. any p (rules_of b)) bs
  any-live_rules p [] = refl
  any-live_rules p (b ∷ rest) =
      rw (any-append p (rules_of b) (live_rules rest), any-live_rules p rest)

  -- The order in which the database returns the bindings, which its query leaves open, does not change
  -- what they decide.
  bindings_decision-perm :
      (req : PermissionRequest) {bs cs : List UserRoleBinding}
      → Perm bs cs
      → bindings_decision repo s now req (ok bs) ≡ bindings_decision repo s now req (ok cs)
  bindings_decision-perm req {bs} {cs} h = rw (
    bindings_decision-verdict req bs,
    bindings_decision-verdict req cs,
    any-live_rules (denies req) bs,
    any-live_rules (applies req) bs,
    any-live_rules (denies req) cs,
    any-live_rules (applies req) cs,
    any-Perm (λ b. any (denies req) (rules_of b)) h,
    any-Perm (λ b. any (applies req) (rules_of b)) h,
  )
