-- ===== src/Rbac/Permissions.antt =====
-- internal/rbac/defaults.go: the permission constants.
use telekube.Base.{String}

abbrev pub kubernetes_pods_list : String
kubernetes_pods_list = "kubernetes.pods.list"

abbrev pub kubernetes_pods_get : String
kubernetes_pods_get = "kubernetes.pods.get"

abbrev pub kubernetes_pods_logs : String
kubernetes_pods_logs = "kubernetes.pods.logs"

abbrev pub kubernetes_pods_events : String
kubernetes_pods_events = "kubernetes.pods.events"

abbrev pub kubernetes_pods_restart : String
kubernetes_pods_restart = "kubernetes.pods.restart"

abbrev pub kubernetes_pods_delete : String
kubernetes_pods_delete = "kubernetes.pods.delete"

abbrev pub kubernetes_deployments_list : String
kubernetes_deployments_list = "kubernetes.deployments.list"

abbrev pub kubernetes_deployments_scale : String
kubernetes_deployments_scale = "kubernetes.deployments.scale"

abbrev pub kubernetes_metrics_view : String
kubernetes_metrics_view = "kubernetes.metrics.view"

abbrev pub kubernetes_nodes_view : String
kubernetes_nodes_view = "kubernetes.nodes.view"

abbrev pub kubernetes_nodes_cordon : String
kubernetes_nodes_cordon = "kubernetes.nodes.cordon"

abbrev pub kubernetes_nodes_drain : String
kubernetes_nodes_drain = "kubernetes.nodes.drain"

abbrev pub kubernetes_quota_view : String
kubernetes_quota_view = "kubernetes.quota.view"

abbrev pub kubernetes_namespaces_list : String
kubernetes_namespaces_list = "kubernetes.namespaces.list"

abbrev pub kubernetes_cron_jobs_list : String
kubernetes_cron_jobs_list = "kubernetes.cronjobs.list"

abbrev pub admin_users_manage : String
admin_users_manage = "admin.users.manage"

abbrev pub admin_rbac_manage : String
admin_rbac_manage = "admin.rbac.manage"

abbrev pub admin_audit_view : String
admin_audit_view = "admin.audit.view"

abbrev pub argo_cd_apps_list : String
argo_cd_apps_list = "argocd.apps.list"

abbrev pub argo_cd_apps_view : String
argo_cd_apps_view = "argocd.apps.view"

abbrev pub argo_cd_apps_diff : String
argo_cd_apps_diff = "argocd.apps.diff"

abbrev pub argo_cd_apps_sync : String
argo_cd_apps_sync = "argocd.apps.sync"

abbrev pub argo_cd_apps_rollback : String
argo_cd_apps_rollback = "argocd.apps.rollback"

abbrev pub argo_cd_freeze_manage : String
argo_cd_freeze_manage = "argocd.freeze.manage"

abbrev pub helm_releases_list : String
helm_releases_list = "helm.releases.list"

abbrev pub helm_releases_rollback : String
helm_releases_rollback = "helm.releases.rollback"
