-- ===== src/Rbac/Defaults.antt =====
-- internal/rbac/defaults.go: the built-in roles. `append` shares no cell here that is read later:
-- `adminPerms` outgrows the array of `operatorPerms` and is copied, and `onCallPerms` writes behind the
-- end of `operatorPerms` only.
use Prim.Native.Char.{Char, code}
use telekube.Base.{ℕ, String, true, List, [], ◌∷◌, ◌++◌, if◌then◌else◌, nat_beq}
use telekube.Entity.Role.{PolicyRule, Role}
use telekube.Entity.User.{role_viewer, role_operator, role_admin, role_super_admin, role_on_call}
use telekube.Rbac.Permissions.{
  kubernetes_pods_list, kubernetes_pods_get, kubernetes_pods_logs, kubernetes_pods_events,
  kubernetes_pods_restart, kubernetes_pods_delete, kubernetes_deployments_list,
  kubernetes_deployments_scale, kubernetes_metrics_view, kubernetes_nodes_view,
  kubernetes_nodes_cordon, kubernetes_nodes_drain, kubernetes_quota_view,
  kubernetes_namespaces_list, kubernetes_cron_jobs_list, admin_users_manage, admin_rbac_manage,
  admin_audit_view, argo_cd_apps_list, argo_cd_apps_view, argo_cd_apps_diff, argo_cd_apps_sync,
  argo_cd_apps_rollback, argo_cd_freeze_manage, helm_releases_list, helm_releases_rollback,
}

-- The first part of a split, with the character in front.
abbrev pub onto_head : Char → List String → List String
onto_head c [] = String.◌∷◌ c String.[] ∷ []
onto_head c (part ∷ parts) = String.◌∷◌ c part ∷ parts

-- The parts between the dots, the last one after the loop.
unfoldable pub split_perm : String → List String
split_perm String.[] = String.[] ∷ []
split_perm (String.◌∷◌ c rest) =
    let parts = split_perm rest in
    if nat_beq (code c) b'.' then String.[] ∷ parts else onto_head c parts

-- The rule of one permission; nothing if it has not three parts.
unfoldable pub rule_of_parts : List String → String → List PolicyRule → List PolicyRule
rule_of_parts (m ∷ r ∷ a ∷ []) effect rest =
    record {
      modules = m ∷ [];
      resources = r ∷ [];
      actions = a ∷ [];
      clusters = "*" ∷ [];
      namespaces = "*" ∷ [];
      effect = effect;
    }
    ∷ rest
rule_of_parts _ effect rest = rest

unfoldable pub flat_perms_to_rules : List String → String → List PolicyRule
unfolding split_perm rule_of_parts
flat_perms_to_rules [] effect = []
flat_perms_to_rules (p ∷ perms) effect =
    rule_of_parts (split_perm p) effect (flat_perms_to_rules perms effect)

abbrev pub viewer_perms : List String
viewer_perms =
    kubernetes_pods_list ∷ kubernetes_pods_get ∷ kubernetes_pods_logs ∷ kubernetes_pods_events
    ∷ kubernetes_metrics_view ∷ kubernetes_nodes_view ∷ kubernetes_quota_view
    ∷ kubernetes_namespaces_list ∷ kubernetes_deployments_list ∷ kubernetes_cron_jobs_list
    ∷ argo_cd_apps_list ∷ argo_cd_apps_view ∷ []

abbrev pub operator_perms : List String
operator_perms =
    viewer_perms
    ++ kubernetes_pods_restart ∷ kubernetes_deployments_scale ∷ argo_cd_apps_diff
      ∷ helm_releases_list ∷ []

abbrev pub admin_perms : List String
admin_perms =
    operator_perms
    ++ kubernetes_pods_delete ∷ kubernetes_nodes_cordon ∷ kubernetes_nodes_drain
      ∷ admin_users_manage ∷ admin_rbac_manage ∷ admin_audit_view ∷ argo_cd_apps_sync
      ∷ argo_cd_apps_rollback ∷ argo_cd_freeze_manage ∷ helm_releases_rollback ∷ []

abbrev pub on_call_perms : List String
on_call_perms = operator_perms ++ argo_cd_apps_rollback ∷ kubernetes_nodes_drain ∷ []

abbrev builtin : ℕ → String → String → String → List PolicyRule → List String → Role
builtin now name display_name description rules permissions = record {
  name = name;
  display_name = display_name;
  description = description;
  rules = rules;
  is_builtin = true;
  created_at = now;
  permissions = permissions;
}

abbrev pub wildcard_rule : PolicyRule
wildcard_rule = record {
  modules = "*" ∷ [];
  resources = "*" ∷ [];
  actions = "*" ∷ [];
  clusters = "*" ∷ [];
  namespaces = "*" ∷ [];
  effect = "allow";
}

unfoldable pub default_roles : ℕ → List Role
unfolding flat_perms_to_rules
default_roles now =
    builtin now role_viewer "Viewer" "Read-only access to Kubernetes resources"
      (flat_perms_to_rules viewer_perms "allow") viewer_perms
    ∷ builtin now role_operator "Operator" "Can perform operational actions like restart and scale"
        (flat_perms_to_rules operator_perms "allow") operator_perms
    ∷ builtin now role_admin "Admin" "Full access to all features"
        (flat_perms_to_rules admin_perms "allow") admin_perms
    ∷ builtin now role_super_admin "Super Admin" "Super admin — always allowed (config-driven)"
        (wildcard_rule ∷ []) admin_perms
    ∷ builtin now role_on_call "On-Call"
        "Emergency access — includes rollback and drain; auto-expires"
        (flat_perms_to_rules on_call_perms "allow") on_call_perms
    ∷ []
