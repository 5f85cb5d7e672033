-- ===== src/Watcher/Rules/Evaluation.antt =====
-- Each evaluation of internal/module/watcher/custom_rules.go works through the list of the violations.
use telekube.Base.{
  ℕ, String, ◌≡◌, refl, sym, ap, ◌∙◌, List, [], ◌∷◌, ◌==◌, string_keyed, Bool-cases, inl, inr,
  Result, ok, err, result, Result-cases,
}
use mathlib.Core.List.{append-nil}
use telekube.Watcher.Rules.{
  AlertRule, RulePod, RuleClients, Fired, resolve_cluster_scope, resolve_namespace_scope,
  first_namespace, check_restart_counts, check_restarting_pods, eval_pod_restart_count_in_ns,
  restart_counts_in, eval_pod_restart_count, check_pending_pods, eval_pod_pending_duration,
  check_quotas, quotas_in, eval_namespace_quota, check_deployments, eval_deployment_unavailable,
  evaluate_kind, evaluate_rule, evaluate_in, evaluate,
}
use telekube.Watcher.Rules.Violations.{
  gather, Violation, restarts, restarts_in, stuck, over_quota_in, unavailable, scope_or, violations,
  violations_in, all_violations, fire_all, fire_all-when, fire_all-gather,
}

module _ (allowed_chats admin_ids : List ℕ) (now : ℕ) where
  -- `go` in these lemmas is the loop or the evaluation with the section's arguments.
  abbrev fires : List Violation → Fired → Fired
  fires vs s = fire_all allowed_chats admin_ids now vs s

  restart_counts-fires :
      (rule : AlertRule) (cluster : String) (pod : RulePod) (s : Fired)
      → check_restart_counts allowed_chats admin_ids now rule cluster pod pod.restart_counts s
        ≡ fires (restarts allowed_chats admin_ids now rule cluster pod) s
  unfolding check_restart_counts
  restart_counts-fires rule cluster pod s =
      fire_all-gather allowed_chats admin_ids now _
        (check_restart_counts allowed_chats admin_ids now rule cluster pod) _ (λ s. refl)
        (λ n rest s. refl) (λ n s. fire_all-when allowed_chats admin_ids now _ _ s)
        pod.restart_counts s

  -- Of a list that the server may refuse.
  listed-fires :
      {A : Type 0} (loop : List A → Fired → Fired) (found : A → List Violation)
      → ((xs : List A) (s : Fired) → loop xs s ≡ fires (gather found xs) s)
      → (answer : Result (List A)) (s : Fired)
      → (elim answer [ err e ↦ s | ok xs ↦ loop xs s ]) ≡ fires (gather found (result [] answer)) s
  unfolding fire_all
  listed-fires loop found same (err e) s = refl
  listed-fires loop found same (ok xs) s = same xs s

  in_ns-fires :
      (rule : AlertRule) (cluster : String) (clients : RuleClients) (ns : String) (s : Fired)
      → eval_pod_restart_count_in_ns allowed_chats admin_ids now rule cluster clients ns s
        ≡ fires (restarts_in allowed_chats admin_ids now rule cluster clients ns) s
  unfolding eval_pod_restart_count_in_ns check_restarting_pods
  in_ns-fires rule cluster clients ns s =
      listed-fires (check_restarting_pods allowed_chats admin_ids now rule cluster) _
        (fire_all-gather allowed_chats admin_ids now _ _ _ (λ s. refl) (λ p rest s. refl)
          (restart_counts-fires rule cluster))
        (clients.list_pods ns) s

  namespaces-fires :
      (rule : AlertRule) (cluster : String) (clients : RuleClients) (namespaces : List String)
      (s : Fired)
      → restart_counts_in allowed_chats admin_ids now rule cluster clients namespaces s
        ≡ fires (gather (restarts_in allowed_chats admin_ids now rule cluster clients) namespaces) s
  unfolding restart_counts_in
  namespaces-fires rule cluster clients namespaces s =
      fire_all-gather allowed_chats admin_ids now _
        (restart_counts_in allowed_chats admin_ids now rule cluster clients) _ (λ s. refl)
        (λ p rest s. refl) (in_ns-fires rule cluster clients) namespaces s

  restarting-fires :
      (rule : AlertRule) (cluster : String) (clients : RuleClients) (s : Fired)
      → eval_pod_restart_count allowed_chats admin_ids now rule cluster clients s
        ≡ fires
            (gather
              (restarts_in allowed_chats admin_ids now rule cluster clients)
              (scope_or allowed_chats admin_ids now ("" ∷ []) rule))
            s
  unfolding eval_pod_restart_count
  restarting-fires rule cluster clients s =
      let whole = in_ns-fires rule cluster clients "" s in
      elim (resolve_namespace_scope rule.namespaces)
        as (λ scope.
          (elim scope [
            | [] ↦
                eval_pod_restart_count_in_ns allowed_chats admin_ids now rule cluster clients "" s
            | ns ∷ rest ↦
                restart_counts_in allowed_chats admin_ids now rule cluster clients (ns ∷ rest) s
          ])
          ≡ fires
              (gather (restarts_in allowed_chats admin_ids now rule cluster clients)
                (elim scope [ [] ↦ "" ∷ [] | ns ∷ rest ↦ ns ∷ rest ]))
              s) [
                | [] ↦ whole ∙ ap (λ vs. fires vs s) (sym (append-nil _))
                | ns ∷ rest ↦ namespaces-fires rule cluster clients (ns ∷ rest) s
              ]

  pending-fires :
      (rule : AlertRule) (cluster : String) (clients : RuleClients) (s : Fired)
      → eval_pod_pending_duration allowed_chats admin_ids now rule cluster clients s
        ≡ fires
            (gather (stuck allowed_chats admin_ids now rule cluster) (
              result [] (
                clients.list_pending_pods
                  (first_namespace (resolve_namespace_scope rule.namespaces)))))
            s
  unfolding eval_pod_pending_duration check_pending_pods
  pending-fires rule cluster clients s =
      listed-fires (check_pending_pods allowed_chats admin_ids now rule cluster) _
        (fire_all-gather allowed_chats admin_ids now _ _ _ (λ s. refl) (λ p rest s. refl)
          (λ p s. fire_all-when allowed_chats admin_ids now _ _ s))
        (clients.list_pending_pods (first_namespace (resolve_namespace_scope rule.namespaces))) s

  deployments-fires :
      (rule : AlertRule) (cluster : String) (clients : RuleClients) (s : Fired)
      → eval_deployment_unavailable allowed_chats admin_ids now rule cluster clients s
        ≡ fires
            (gather (unavailable allowed_chats admin_ids now rule cluster) (
              result [] (
                clients.list_deployments
                  (first_namespace (resolve_namespace_scope rule.namespaces)))))
            s
  unfolding eval_deployment_unavailable check_deployments
  deployments-fires rule cluster clients s =
      listed-fires (check_deployments allowed_chats admin_ids now rule cluster) _
        (fire_all-gather allowed_chats admin_ids now _ _ _ (λ s. refl) (λ p rest s. refl)
          (λ p s. fire_all-when allowed_chats admin_ids now _ _ s))
        (clients.list_deployments (first_namespace (resolve_namespace_scope rule.namespaces))) s

  quotas-fires :
      (rule : AlertRule) (cluster : String) (clients : RuleClients) (namespaces : List String)
      (s : Fired)
      → quotas_in allowed_chats admin_ids now rule cluster clients namespaces s
        ≡ fires
            (gather (over_quota_in allowed_chats admin_ids now rule cluster clients) namespaces)
            s
  unfolding quotas_in check_quotas
  quotas-fires rule cluster clients namespaces s =
      fire_all-gather allowed_chats admin_ids now _
        (quotas_in allowed_chats admin_ids now rule cluster clients) _ (λ s. refl)
        (λ p rest s. refl)
        (λ ns s.
          listed-fires (check_quotas allowed_chats admin_ids now rule cluster ns) _
            (fire_all-gather allowed_chats admin_ids now _ _ _ (λ s. refl) (λ p rest s. refl)
              (λ q s. fire_all-when allowed_chats admin_ids now _ _ s))
            (clients.list_quotas ns) s)
        namespaces s

  quota-fires :
      (rule : AlertRule) (cluster : String) (clients : RuleClients) (s : Fired)
      → eval_namespace_quota allowed_chats admin_ids now rule cluster clients s
        ≡ fires
            (gather
              (over_quota_in allowed_chats admin_ids now rule cluster clients)
              (scope_or allowed_chats admin_ids now (result [] clients.list_namespaces) rule))
            s
  unfolding eval_namespace_quota
  quota-fires rule cluster clients s =
      elim (resolve_namespace_scope rule.namespaces)
        as (λ scope.
          (elim scope [
            | [] ↦ elim clients.list_namespaces [
              | err e ↦ s
              | ok namespaces ↦
                  quotas_in allowed_chats admin_ids now rule cluster clients namespaces s
            ]
            | ns ∷ rest ↦ quotas_in allowed_chats admin_ids now rule cluster clients (ns ∷ rest) s
          ])
          ≡ fires
              (gather (over_quota_in allowed_chats admin_ids now rule cluster clients)
                (elim scope [ [] ↦ result [] clients.list_namespaces | ns ∷ rest ↦ ns ∷ rest ]))
              s) [
                | [] ↦
                    listed-fires (quotas_in allowed_chats admin_ids now rule cluster clients) _
                      (quotas-fires rule cluster clients) clients.list_namespaces s
                | ns ∷ rest ↦ quotas-fires rule cluster clients (ns ∷ rest) s
              ]

  kind-fires :
      (rule : AlertRule) (cluster : String) (clients : RuleClients) (s : Fired)
      → evaluate_kind allowed_chats admin_ids now clients rule cluster s
        ≡ fires (violations_in allowed_chats admin_ids now clients rule cluster) s
  unfolding evaluate_kind fire_all
  kind-fires rule cluster clients s =
      elim (Bool-cases (rule.condition_type == "pod_restart_count")) [
        | inl is ↦ rw is (restarting-fires rule cluster clients s)
        | inr a ↦ elim (Bool-cases (rule.condition_type == "pod_pending_duration")) [
          | inl is ↦ rw (a, is) (pending-fires rule cluster clients s)
          | inr b ↦ elim (Bool-cases (rule.condition_type == "namespace_quota_percentage")) [
            | inl is ↦ rw (a, b, is) (quota-fires rule cluster clients s)
            | inr c ↦ elim (Bool-cases (rule.condition_type == "deployment_unavailable")) [
              | inl is ↦ rw (a, b, c, is) (deployments-fires rule cluster clients s)
              | inr d ↦ rw (a, b, c, d) refl
            ]
          ]
        ]
      ]

  rule-fires :
      (client_set : String → Result RuleClients) (rule : AlertRule) (cluster : String) (s : Fired)
      → evaluate_rule allowed_chats admin_ids now client_set rule cluster s
        ≡ fires (violations allowed_chats admin_ids now client_set rule cluster) s
  unfolding evaluate_rule violations fire_all
  rule-fires client_set rule cluster s = elim (Result-cases (client_set cluster)) [
    | inr (x, e) ↦ rw (evaluate_rule, violations, e) refl
    | inl (clients, e) ↦ rw (evaluate_rule, violations, e) (kind-fires rule cluster clients s)
  ]

  -- An evaluation of all rules fires their violations one after the other.
  pub evaluate-fire_all :
      (client_set : String → Result RuleClients) (all : List String) (rules : List AlertRule)
      (s : Fired)
      → evaluate allowed_chats admin_ids now client_set all rules s
        ≡ fires (all_violations allowed_chats admin_ids now client_set all rules) s
  unfolding evaluate evaluate_in all_violations
  evaluate-fire_all client_set all rules s =
      fire_all-gather allowed_chats admin_ids now
        (λ rule s.
          evaluate_in allowed_chats admin_ids now client_set rule
            (resolve_cluster_scope all rule.clusters) s)
        (evaluate allowed_chats admin_ids now client_set all) _ (λ s. refl) (λ rule rest s. refl)
        (λ rule s.
          fire_all-gather allowed_chats admin_ids now _
            (evaluate_in allowed_chats admin_ids now client_set rule) _ (λ s. refl)
            (λ c rest s. refl) (rule-fires client_set rule)
            (resolve_cluster_scope all rule.clusters) s)
        rules s
