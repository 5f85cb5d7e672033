-- ===== src/Watcher/Rules/Violations.antt =====
-- What violates the alert rules of internal/module/watcher/custom_rules.go, as one list, and that an
-- evaluation works through it.
use Prim.Native.String.{◌++◌ as concat}
use telekube.Base.{
  ℕ, String, Bool, true, false, ◌≡◌, refl, sym, ap, ◌∙◌, List, [], ◌∷◌, ◌++◌, ◌==◌, string_keyed,
  leb, if◌then◌else◌, Result, ok, err, result,
}
use telekube.Watcher.Rules.{
  AlertRule, RulePod, Quota, Deployment, RuleClients, RuleAlert, Fired, rule_key,
  resolve_cluster_scope, resolve_namespace_scope, first_namespace, or_default, fire_alert,
  fire_unless_cooling, fire_when, is_stuck, resource_of, is_over_quota, is_unavailable,
}

abbrev pub gather : {A B : Type 0} → (A → List B) → List A → List B
gather f [] = []
gather f (x ∷ xs) = f x ++ gather f xs

-- A key of the cache, and the alert that is sent if it is not cooling.
abbrev pub Violation : Type 0
Violation = String × RuleAlert

abbrev pub one_if : Bool → Violation → List Violation
one_if test v = if test then v ∷ [] else []

module _ (allowed_chats admin_ids : List ℕ) (now : ℕ) where
  abbrev pub violation : AlertRule → String → String → String → String → Violation
  violation rule cluster namespace name resource = (
    rule_key rule cluster namespace name,
    fire_alert allowed_chats admin_ids now rule cluster namespace resource,
  )

  abbrev pub restarts : AlertRule → String → RulePod → List Violation
  restarts rule cluster pod =
      gather
        (λ n.
          one_if (leb (or_default rule.threshold 5) n)
            (violation rule cluster pod.namespace pod.name (concat "pod/" pod.name)))
        pod.restart_counts

  abbrev pub restarts_in : AlertRule → String → RuleClients → String → List Violation
  restarts_in rule cluster clients ns =
      gather (restarts rule cluster) (result [] (clients.list_pods ns))

  abbrev pub stuck : AlertRule → String → RulePod → List Violation
  stuck rule cluster pod =
      one_if (is_stuck now rule pod)
        (violation rule cluster pod.namespace pod.name (concat "pod/" pod.name))

  abbrev pub over_quota : AlertRule → String → String → Quota → List Violation
  over_quota rule cluster ns q =
      one_if (is_over_quota rule q)
        (violation rule cluster ns (resource_of rule) (concat "quota/" q.name))

  abbrev pub over_quota_in : AlertRule → String → RuleClients → String → List Violation
  over_quota_in rule cluster clients ns =
      gather (over_quota rule cluster ns) (result [] (clients.list_quotas ns))

  abbrev pub unavailable : AlertRule → String → Deployment → List Violation
  unavailable rule cluster d =
      one_if (is_unavailable d)
        (violation rule cluster d.namespace d.name (concat "deployment/" d.name))

  -- The namespaces of the scope, or what stands for all of them.
  abbrev pub scope_or : List String → AlertRule → List String
  scope_or all rule = elim (resolve_namespace_scope rule.namespaces) [
    | [] ↦ all
    | ns ∷ rest ↦ ns ∷ rest
  ]

  abbrev pub first_of : AlertRule → String
  first_of rule = first_namespace (resolve_namespace_scope rule.namespaces)

  abbrev pub violations_in : RuleClients → AlertRule → String → List Violation
  violations_in clients rule cluster =
      if rule.condition_type == "pod_restart_count"
      then gather (restarts_in rule cluster clients) (scope_or ("" ∷ []) rule)
      else if rule.condition_type == "pod_pending_duration"
      then gather (stuck rule cluster) (result [] (clients.list_pending_pods (first_of rule)))
      else if rule.condition_type == "namespace_quota_percentage"
      then gather (over_quota_in rule cluster clients)
          (scope_or (result [] clients.list_namespaces) rule)
      else if rule.condition_type == "deployment_unavailable"
      then gather (unavailable rule cluster) (result [] (clients.list_deployments (first_of rule)))
      else []

  unfoldable pub violations : (String → Result RuleClients) → AlertRule → String → List Violation
  violations client_set rule cluster = elim (client_set cluster) [
    | err e ↦ []
    | ok clients ↦ violations_in clients rule cluster
  ]

  -- Of all rules in their order, and of the clusters of each.
  unfoldable pub all_violations :
      (String → Result RuleClients) → List String → List AlertRule → List Violation
  all_violations client_set all rules =
      gather (λ rule. gather (violations client_set rule) (resolve_cluster_scope all rule.clusters))
        rules

  unfoldable pub fire_all : List Violation → Fired → Fired
  fire_all [] s = s
  fire_all (v ∷ rest) s = fire_all rest (fire_unless_cooling allowed_chats admin_ids now v.0 v.1 s)

  pub fire_all-append :
      (xs ys : List Violation) (s : Fired) → fire_all (xs ++ ys) s ≡ fire_all ys (fire_all xs s)
  unfolding fire_all
  fire_all-append [] ys s = refl
  fire_all-append (v ∷ xs) ys s =
      fire_all-append xs ys (fire_unless_cooling allowed_chats admin_ids now v.0 v.1 s)

  pub fire_all-when :
      (test : Bool) (v : Violation) (s : Fired)
      → fire_when allowed_chats admin_ids now test v.0 v.1 s ≡ fire_all (one_if test v) s
  unfolding fire_all
  fire_all-when true v s = refl
  fire_all-when false v s = refl

  -- A loop whose step fires the violations of an element fires those of all elements.
  pub fire_all-gather :
      {A : Type 0} (step : A → Fired → Fired) (loop : List A → Fired → Fired)
      (found : A → List Violation)
      → ((s : Fired) → loop [] s ≡ s)
      → ((x : A) (rest : List A) (s : Fired) → loop (x ∷ rest) s ≡ loop rest (step x s))
      → ((x : A) (s : Fired) → step x s ≡ fire_all (found x) s)
      → (xs : List A) (s : Fired) → loop xs s ≡ fire_all (gather found xs) s
  unfolding fire_all
  fire_all-gather step loop found stops goes fires [] s = stops s
  fire_all-gather step loop found stops goes fires (x ∷ rest) s =
      goes x rest s
      ∙ fire_all-gather step loop found stops goes fires rest (step x s)
      ∙ ap (fire_all (gather found rest)) (fires x s)
      ∙ sym (fire_all-append (found x) (gather found rest) s)
