-- ===== src/Watcher/Rules.antt =====
-- internal/module/watcher/custom_rules.go: the alert rules of the configuration. One evaluation of a rule
-- reads the clock once; the texts of the alerts are left out, and the audit entry of an alert has its
-- fields. A quantity of a quota is its `Value`.
pub mod Violations
pub mod Evaluation
pub mod Firing
use Prim.Native.String.{◌++◌ as concat}
use telekube.Base.{
  ℕ, zero, suc, ◌+◌, ◌*◌, ◌/◌, ◌%◌, ◌^◌, String, Bool, true, false, Option, none, some, List, [],
  ◌∷◌, ◌++◌, ◌==◌, string_keyed, nat_keyed, not, ltb, leb, ◌&&◌, ◌||◌, if◌then◌else◌, Result, ok,
  err,
}
use telekube.Watcher.AlertCache.{AlertCache, set, is_cooling}

abbrev pub custom_rule_cooldown : ℕ
custom_rule_cooldown = 600_000_000_000

-- The window is what time.ParseDuration makes of it, nothing for an empty text and one that it refuses.
pub record AlertRule : Type 0 where
  pub name : String
  pub condition_type : String
  pub threshold : ℕ
  pub window : Option ℕ
  pub condition_resource : String
  pub clusters : List String
  pub namespaces : List String
  pub severity : String
  pub chats : List ℕ

-- What is read of the objects of a cluster.
pub record RulePod : Type 0 where
  pub name : String
  pub namespace : String
  pub restart_counts : List ℕ
  pub created_at : Option ℕ

pub record Quota : Type 0 where
  pub name : String
  pub hard : String → Option ℕ
  pub used : String → Option ℕ

pub record Deployment : Type 0 where
  pub name : String
  pub namespace : String
  pub available_replicas : ℕ
  pub replicas : Option ℕ

pub record RuleClients : Type 0 where
  pub list_pods : String → Result (List RulePod)
  pub list_pending_pods : String → Result (List RulePod)
  pub list_namespaces : Result (List String)
  pub list_quotas : String → Result (List Quota)
  pub list_deployments : String → Result (List Deployment)

pub record RuleAlert : Type 0 where
  pub rule : String
  pub severity : String
  pub cluster : String
  pub namespace : String
  pub resource : String
  pub mute_key : String
  pub recipients : List ℕ

-- The cache, and the alerts that were sent, each with the key that it was entered under.
abbrev pub Fired : Type 0
Fired = AlertCache × List (String × RuleAlert)

abbrev pub rule_key : AlertRule → String → String → String → String
rule_key rule cluster namespace name = concat "custom:" (
    concat rule.name
      (concat ":" (concat cluster (concat "/" (concat namespace (concat "/" name))))))

-- `len(scope) == 0 || (len(scope) == 1 && scope[0] == "*")`
abbrev pub is_all : List String → Bool
is_all [] = true
is_all (s ∷ []) = s == "*"
is_all _ = false

unfoldable pub resolve_cluster_scope : List String → List String → List String
resolve_cluster_scope all clusters = if is_all clusters then all else clusters

unfoldable pub resolve_namespace_scope : List String → List String
resolve_namespace_scope namespaces = if is_all namespaces then [] else namespaces

-- The first namespace of the scope, or all.
abbrev pub first_namespace : List String → String
first_namespace [] = ""
first_namespace (ns ∷ rest) = ns

abbrev pub or_default : ℕ → ℕ → ℕ
or_default zero n = n
or_default (suc m) n = suc m

-- Pending for longer than the window; a pod without a creation time is passed over.
abbrev pub is_stuck : ℕ → AlertRule → RulePod → Bool
is_stuck now rule pod = elim pod.created_at [
  | none ↦ false
  | some t ↦ ltb (t + (elim rule.window [ none ↦ 600_000_000_000 | some d ↦ d ])) now
]

abbrev pub resource_of : AlertRule → String
resource_of rule = if rule.condition_resource == "" then "memory" else rule.condition_resource

abbrev pub kind_of : AlertRule → String
kind_of rule = if resource_of rule == "cpu" then "cpu" else "memory"

-- `used` and `hard` under one name, if both are there.
abbrev pub both : Option ℕ → Option ℕ → Option (ℕ × ℕ)
both none h = none
both (some u) none = none
both (some u) (some h) = some (u, h)

unfoldable pub quota_usage : AlertRule → Quota → Option (ℕ × ℕ)
quota_usage rule q =
    let limits = concat "limits." (kind_of rule) in
    let requests = concat "requests." (kind_of rule) in
    elim (both (q.used limits) (q.hard limits)) [
      | none ↦ both (q.used requests) (q.hard requests)
      | some p ↦ some p
    ]

-- `int(usedVal * 100 / hardVal)`: a product that wraps below zero gives no percentage above 0.
abbrev pub percentage : ℕ → ℕ → ℕ
percentage used hard =
    let product = used * 100 % 2 ^ 64 in if leb (2 ^ 63) product then 0 else product / hard

unfoldable pub is_over_quota : AlertRule → Quota → Bool
unfolding quota_usage
is_over_quota rule q = elim (quota_usage rule q) [
  | none ↦ false
  | some (used, zero) ↦ false
  | some (used, hard) ↦ leb (or_default rule.threshold 80) (percentage used hard)
]

abbrev pub is_unavailable : Deployment → Bool
is_unavailable d =
    d.available_replicas == 0
    && (elim d.replicas [ none ↦ false | some n ↦ ltb 0 n && ltb n (2 ^ 31) ])

module _ (allowed_chats admin_ids : List ℕ) (now : ℕ) where
  abbrev pub recipients_of : AlertRule → List ℕ
  recipients_of rule = elim rule.chats [ [] ↦ allowed_chats ++ admin_ids | c ∷ cs ↦ c ∷ cs ]

  unfoldable pub fire_alert : AlertRule → String → String → String → RuleAlert
  fire_alert rule cluster namespace resource = record {
    rule = rule.name;
    severity = rule.severity;
    cluster = cluster;
    namespace = namespace;
    resource = resource;
    mute_key =
        concat "custom:" (concat rule.name (concat ":" (concat cluster (concat "/" namespace))));
    recipients = recipients_of rule;
  }

  -- isInCooldown, fireAlert and markFired, as each condition calls them.
  unfoldable pub fire_unless_cooling : String → RuleAlert → Fired → Fired
  unfolding is_cooling
  fire_unless_cooling key alert (cache, sent) =
      if is_cooling custom_rule_cooldown cache now key
      then (cache, sent)
      else (set cache key now, sent ++ (key, alert) ∷ [])

  -- `if test { … }`
  abbrev pub fire_when : Bool → String → RuleAlert → Fired → Fired
  fire_when test key alert s = if test then fire_unless_cooling key alert s else s

  unfoldable pub check_restart_counts : AlertRule → String → RulePod → List ℕ → Fired → Fired
  unfolding fire_unless_cooling fire_alert
  check_restart_counts rule cluster pod [] s = s
  check_restart_counts rule cluster pod (n ∷ rest) s = check_restart_counts rule cluster pod rest (
      fire_when (leb (or_default rule.threshold 5) n) (rule_key rule cluster pod.namespace pod.name)
        (fire_alert rule cluster pod.namespace (concat "pod/" pod.name)) s)

  unfoldable pub check_restarting_pods : AlertRule → String → List RulePod → Fired → Fired
  unfolding check_restart_counts
  check_restarting_pods rule cluster [] s = s
  check_restarting_pods rule cluster (pod ∷ rest) s =
      check_restarting_pods rule cluster rest
        (check_restart_counts rule cluster pod pod.restart_counts s)

  unfoldable pub eval_pod_restart_count_in_ns :
      AlertRule → String → RuleClients → String → Fired → Fired
  unfolding check_restarting_pods
  eval_pod_restart_count_in_ns rule cluster clients namespace s =
      elim (clients.list_pods namespace) [
        | err e ↦ s
        | ok pods ↦ check_restarting_pods rule cluster pods s
      ]

  unfoldable pub restart_counts_in : AlertRule → String → RuleClients → List String → Fired → Fired
  unfolding eval_pod_restart_count_in_ns
  restart_counts_in rule cluster clients [] s = s
  restart_counts_in rule cluster clients (ns ∷ rest) s =
      restart_counts_in rule cluster clients rest
        (eval_pod_restart_count_in_ns rule cluster clients ns s)

  unfoldable pub eval_pod_restart_count : AlertRule → String → RuleClients → Fired → Fired
  unfolding restart_counts_in resolve_namespace_scope
  eval_pod_restart_count rule cluster clients s = elim (resolve_namespace_scope rule.namespaces) [
    | [] ↦ eval_pod_restart_count_in_ns rule cluster clients "" s
    | ns ∷ rest ↦ restart_counts_in rule cluster clients (ns ∷ rest) s
  ]

  unfoldable pub check_pending_pods : AlertRule → String → List RulePod → Fired → Fired
  unfolding fire_unless_cooling fire_alert
  check_pending_pods rule cluster [] s = s
  check_pending_pods rule cluster (pod ∷ rest) s = check_pending_pods rule cluster rest (
      fire_when (is_stuck now rule pod) (rule_key rule cluster pod.namespace pod.name)
        (fire_alert rule cluster pod.namespace (concat "pod/" pod.name)) s)

  unfoldable pub eval_pod_pending_duration : AlertRule → String → RuleClients → Fired → Fired
  unfolding check_pending_pods resolve_namespace_scope
  eval_pod_pending_duration rule cluster clients s =
      elim (clients.list_pending_pods (first_namespace (resolve_namespace_scope rule.namespaces))) [
        | err e ↦ s
        | ok pods ↦ check_pending_pods rule cluster pods s
      ]

  unfoldable pub check_quotas : AlertRule → String → String → List Quota → Fired → Fired
  unfolding is_over_quota fire_unless_cooling fire_alert
  check_quotas rule cluster namespace [] s = s
  check_quotas rule cluster namespace (q ∷ rest) s = check_quotas rule cluster namespace rest (
      fire_when (is_over_quota rule q) (rule_key rule cluster namespace (resource_of rule))
        (fire_alert rule cluster namespace (concat "quota/" q.name)) s)

  unfoldable pub quotas_in : AlertRule → String → RuleClients → List String → Fired → Fired
  unfolding check_quotas
  quotas_in rule cluster clients [] s = s
  quotas_in rule cluster clients (ns ∷ rest) s =
      quotas_in rule cluster clients rest (elim (clients.list_quotas ns) [
        | err e ↦ s
        | ok quotas ↦ check_quotas rule cluster ns quotas s
      ])

  unfoldable pub eval_namespace_quota : AlertRule → String → RuleClients → Fired → Fired
  unfolding quotas_in resolve_namespace_scope
  eval_namespace_quota rule cluster clients s = elim (resolve_namespace_scope rule.namespaces) [
    | [] ↦ elim clients.list_namespaces [
      | err e ↦ s
      | ok namespaces ↦ quotas_in rule cluster clients namespaces s
    ]
    | ns ∷ rest ↦ quotas_in rule cluster clients (ns ∷ rest) s
  ]

  unfoldable pub check_deployments : AlertRule → String → List Deployment → Fired → Fired
  unfolding fire_unless_cooling fire_alert
  check_deployments rule cluster [] s = s
  check_deployments rule cluster (d ∷ rest) s = check_deployments rule cluster rest (
      fire_when (is_unavailable d) (rule_key rule cluster d.namespace d.name)
        (fire_alert rule cluster d.namespace (concat "deployment/" d.name)) s)

  unfoldable pub eval_deployment_unavailable : AlertRule → String → RuleClients → Fired → Fired
  unfolding check_deployments resolve_namespace_scope
  eval_deployment_unavailable rule cluster clients s =
      elim (clients.list_deployments (first_namespace (resolve_namespace_scope rule.namespaces))) [
        | err e ↦ s
        | ok deployments ↦ check_deployments rule cluster deployments s
      ]

  unfoldable pub evaluate_kind : RuleClients → AlertRule → String → Fired → Fired
  unfolding eval_pod_restart_count eval_pod_pending_duration eval_namespace_quota
      eval_deployment_unavailable
  evaluate_kind clients rule cluster s =
      if rule.condition_type == "pod_restart_count"
      then eval_pod_restart_count rule cluster clients s
      else if rule.condition_type == "pod_pending_duration"
      then eval_pod_pending_duration rule cluster clients s
      else if rule.condition_type == "namespace_quota_percentage"
      then eval_namespace_quota rule cluster clients s
      else if rule.condition_type == "deployment_unavailable"
      then eval_deployment_unavailable rule cluster clients s
      else s

  -- Each condition asks for the clients of the cluster, and gives up without them.
  unfoldable pub evaluate_rule : (String → Result RuleClients) → AlertRule → String → Fired → Fired
  unfolding evaluate_kind
  evaluate_rule client_set rule cluster s = elim (client_set cluster) [
    | err e ↦ s
    | ok clients ↦ evaluate_kind clients rule cluster s
  ]

  unfoldable pub evaluate_in :
      (String → Result RuleClients) → AlertRule → List String → Fired → Fired
  unfolding evaluate_rule
  evaluate_in client_set rule [] s = s
  evaluate_in client_set rule (cluster ∷ rest) s =
      evaluate_in client_set rule rest (evaluate_rule client_set rule cluster s)

  unfoldable pub evaluate :
      (String → Result RuleClients) → List String → List AlertRule → Fired → Fired
  unfolding evaluate_in resolve_cluster_scope
  evaluate client_set all [] s = s
  evaluate client_set all (rule ∷ rest) s =
      evaluate client_set all rest
        (evaluate_in client_set rule (resolve_cluster_scope all rule.clusters) s)
