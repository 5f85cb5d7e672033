-- ===== src/Watcher/Tests.antt =====
-- Alerts of the pod watcher, and the theorems at concrete inputs.
use telekube.Base.{
  ◌+◌, ltb, some, String, true, not, ◌&&◌, ◌||◌, if◌then◌else◌, map, Result, ok, ◌≡◌, refl, none,
  List, [], ◌∷◌, arith,
}
use telekube.Watcher.AlertCache.{is_cooling, admit, mute_alert, cleanup}
use telekube.Watcher.Cooldown.{
  Event, raised, muted, cleaned, sent, handle_event, IsSpaced, sent-IsSpaced,
}
use telekube.Watcher.AlertCache.{default_cooldown, hour}
use telekube.Watcher.Rules.{
  AlertRule, Deployment, RuleClients, Fired, evaluate, resolve_cluster_scope,
  resolve_namespace_scope,
}
use telekube.Watcher.Rules.Violations.{all_violations}
use telekube.Watcher.Rules.Firing.{sent_for, cools, has_key, one, evaluate-count}
use telekube.Watcher.Control.{new_module, handle_mute}
use telekube.Watcher.Muting.{Step, starts, stops, rules_set, run, holds, run-handle_mute}
use telekube.Watcher.Nodes
use telekube.Watcher.Nodes.{check_node}

abbrev events : List Event
events =
    raised 1_000_000_000 "prod-1/web/api/OOMKilled"
    ∷ raised 2_000_000_000 "prod-1/web/api/OOMKilled"
    ∷ raised 3_000_000_000 "prod-1/web/db/Evicted"
    ∷ cleaned 302_000_000_000
    ∷ raised 303_000_000_000 "prod-1/web/api/OOMKilled"
    ∷ muted 304_000_000_000 "prod-1/web/api/OOMKilled"
    ∷ raised 900_000_000_000 "prod-1/web/api/OOMKilled"
    ∷ []

-- The second alert comes within the cooldown, and the last one within the mute.
sends : sent "prod-1/web/api/OOMKilled" (λ k. none) events [] ≡ 303_000_000_000 ∷ 1_000_000_000 ∷ []
unfolding sent handle_event admit is_cooling mute_alert cleanup
sends = refl

sent-IsSpaced_example : IsSpaced (sent "prod-1/web/api/OOMKilled" (λ k. none) events [])
sent-IsSpaced_example = sent-IsSpaced "prod-1/web/api/OOMKilled" events (
  omega arith,
  (omega arith, (omega arith, (omega arith, (omega arith, (omega arith, (omega arith, tt)))))),
)

abbrev rule : AlertRule
rule = record {
  name = "down";
  condition_type = "deployment_unavailable";
  threshold = 0;
  window = none;
  condition_resource = "";
  clusters = "*" ∷ [];
  namespaces = [];
  severity = "critical";
  chats = [];
}

abbrev api : Deployment
api = record { name = "api"; namespace = "shop"; available_replicas = 0; replicas = some 2 }

abbrev rule_clients : RuleClients
rule_clients = record {
  list_pods = λ ns. ok [];
  list_pending_pods = λ ns. ok [];
  list_namespaces = ok [];
  list_quotas = λ ns. ok [];
  list_deployments = λ ns. ok (api ∷ api ∷ []);
}

abbrev client_set : String → Result RuleClients
client_set cluster = ok rule_clients

abbrev none_sent : Fired
none_sent = ((λ key. none), [])

-- The two entries of one deployment have one key, and one alert.
fires_once :
    sent_for "custom:down:prod-1/shop/api"
      (evaluate (7 ∷ []) (1 ∷ []) 5 client_set ("prod-1" ∷ []) (rule ∷ []) none_sent)
    ≡ 1
unfolding evaluate resolve_cluster_scope resolve_namespace_scope is_cooling
fires_once = refl

evaluate-count_example :
    (sent_for "k" (evaluate (7 ∷ []) (1 ∷ []) 5 client_set ("prod-1" ∷ []) (rule ∷ []) none_sent)
      ≡ sent_for "k" none_sent
        + one (
            has_key "k" (all_violations (7 ∷ []) (1 ∷ []) 5 client_set ("prod-1" ∷ []) (rule ∷ []))
            && not (cools 5 none_sent "k")))
    × (cools 5 (evaluate (7 ∷ []) (1 ∷ []) 5 client_set ("prod-1" ∷ []) (rule ∷ []) none_sent) "k"
        ≡ (cools 5 none_sent "k"
            || has_key "k"
                (all_violations (7 ∷ []) (1 ∷ []) 5 client_set ("prod-1" ∷ []) (rule ∷ []))))
evaluate-count_example =
    evaluate-count (7 ∷ []) (1 ∷ []) 5 client_set ("prod-1" ∷ []) (rule ∷ []) none_sent "k"

abbrev steps : List Step
steps = rules_set (rule ∷ []) ∷ starts ∷ starts ∷ stops ∷ starts ∷ []

run-handle_mute_example :
    ((run new_module steps).live ≡ (if (run new_module steps).running then 1 else 0))
    × ((run new_module steps).running ≡ true
        → (holds default_cooldown (handle_mute (run new_module steps) 5 "k").pod_cache 9 "k"
            ≡ ltb 9 (5 + hour))
          × (holds default_cooldown (handle_mute (run new_module steps) 5 "k").node_cache 9 "k"
              ≡ ltb 9 (5 + hour)))
    × (holds 7 (handle_mute (run new_module steps) 5 "k").cron_job_cache 9 "k"
        ≡ holds 7 (run new_module steps).cron_job_cache 9 "k")
    × (holds 7 (handle_mute (run new_module steps) 5 "k").cert_cache 9 "k"
        ≡ holds 7 (run new_module steps).cert_cache 9 "k")
    × (holds 7 (handle_mute (run new_module steps) 5 "k").pvc_cache 9 "k"
        ≡ holds 7 (run new_module steps).pvc_cache 9 "k")
    × (holds 7 (handle_mute (run new_module steps) 5 "k").rule_cache 9 "k"
        ≡ holds 7 (run new_module steps).rule_cache 9 "k")
run-handle_mute_example = run-handle_mute steps 5 9 7 "k"

abbrev ready : String → Nodes.Node
ready status = record { name = "n1"; conditions = ("Ready", status) ∷ [] }

-- A node that stays unreachable raises one alert, at the change.
unreachable_once :
    map
      (λ a. a.condition)
      (check_node 6 "prod-1"
        (ready "Unknown")
        (ready "Unknown")
        (check_node 5 "prod-1" (ready "True") (ready "Unknown") ((λ key. none), []))).1
    ≡ "Unreachable" ∷ []
unfolding check_node
unreachable_once = refl
