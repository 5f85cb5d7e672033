-- ===== src/Kubernetes/Drain.antt =====
-- internal/module/kubernetes/nodes.go: the drain of a node. `go m.performDrain` is run to its end after
-- the handler; the messages of its progress are left out.
pub mod Counting
use Prim.Native.String.{◌++◌ as concat}
use telekube.Base.{
  ℕ, ◌+◌, String, Bool, true, false, Option, none, some, List, [], ◌∷◌, ◌++◌, ◌==◌, string_keyed,
  not, count_if, ltb, if◌then◌else◌, ◌bar◌, Result, ok, err, split_n,
}
use telekube.Base.Numbers.{print_int}
use telekube.Entity.User.{User}
use telekube.Entity.Audit.{AuditEntry, audit_status_success, audit_status_error}
use telekube.Approval.Manager.{ApprovalInput}
use telekube.Kubernetes.Api.{
  Pod, Node, ClientSet, Services, Done, Request, update_node, evict, button, Reply, unidentified,
  invalid_data, cluster_error, list_failed, not_found, failed, awaiting_approval, screen, drained,
  Outcome, only, entry,
}

unfoldable pub has_daemon_set : List String → Bool
has_daemon_set [] = false
has_daemon_set (kind ∷ rest) = if kind == "DaemonSet" then true else has_daemon_set rest

unfoldable pub is_daemon_set_pod : Pod → Bool
unfolding has_daemon_set
is_daemon_set_pod pod = has_daemon_set pod.owner_kinds

-- The counters of the second loop, with the requests that it has sent.
pub record Evictions : Type 0 where
  pub evicted : ℕ
  pub failed_count : ℕ
  pub sent : List Request

unfoldable pub evict_pod : ClientSet → String → Pod → Evictions → Evictions
evict_pod clients cluster pod v =
    let requested = v.sent ++ evict cluster pod.namespace pod.name ∷ [] in
    elim (clients.evict pod.namespace pod.name) [
      | err e ↦ record v { failed_count = v.failed_count + 1; sent = requested }
      | ok done ↦ record v { evicted = v.evicted + 1; sent = requested }
    ]

unfoldable pub evict_pods : ClientSet → String → List Pod → Evictions → Evictions
unfolding evict_pod
evict_pods clients cluster [] v = v
evict_pods clients cluster (pod ∷ rest) v =
    evict_pods clients cluster rest
      (if is_daemon_set_pod pod then v else evict_pod clients cluster pod v)

abbrev pub no_evictions : Evictions
no_evictions = record { evicted = 0; failed_count = 0; sent = [] }

module _ {W : Type 0} (services : Services W) (now : ℕ) (fresh : String) where
  -- The dialog, with the number of the pods that will be evicted.
  unfoldable pub handle_node_drain : String → Reply
  handle_node_drain payload = elim (split_n 2 payload) [
    | name ∷ cluster ∷ [] ↦ elim (services.client_set cluster) [
      | err e ↦ cluster_error
      | ok clients ↦
          screen name
            (button "k8s_node_drain_confirm" payload ∷ button "k8s_node_detail" payload ∷ [])
    ]
    | _ ↦ invalid_data
  ]

  abbrev pub drain_entry : User → String → String → Evictions → ℕ → AuditEntry
  drain_entry user name cluster v skipped =
      entry fresh now user.telegram_id user.username "node.drain" (concat "node/" name) cluster ""
        (if ltb 0 v.failed_count then audit_status_error else audit_status_success) none
        (("evicted", print_int v.evicted)
          ∷ ("skipped", print_int skipped)
          ∷ ("failed", print_int v.failed_count)
          ∷ [])

  -- From the list of the node's pods on; `sent` is the request that cordoned the node.
  unfoldable pub evict_all : W → User → ClientSet → String → String → Request → List Pod → Outcome W
  unfolding evict_pods
  evict_all w user clients name cluster sent pods =
      let v = evict_pods clients cluster pods no_evictions in
      let skipped = count_if is_daemon_set_pod pods in
      record {
        reply = drained v.evicted skipped v.failed_count;
        requests = sent ∷ v.sent;
        audited = drain_entry user name cluster v skipped ∷ [];
        after = w;
      }

  abbrev pub stopped_after : W → Request → Reply → Outcome W
  stopped_after w sent reply = record {
    reply = reply;
    requests = sent ∷ [];
    audited = [];
    after = w;
  }

  unfoldable pub drain_node : W → User → ClientSet → String → String → Node → Outcome W
  unfolding evict_all
  drain_node w user clients name cluster node =
      let node' = record node { unschedulable = true } in
      let sent = update_node cluster node' in
      elim (clients.update_node node') [
        | err e ↦ stopped_after w sent failed
        | ok done ↦ elim (clients.list_pods_on name) [
          | err e ↦ stopped_after w sent list_failed
          | ok pods ↦ evict_all w user clients name cluster sent pods
        ]
      ]

  unfoldable pub perform_drain : W → User → String → String → Outcome W
  unfolding drain_node
  perform_drain w user name cluster = elim (services.client_set cluster) [
    | err e ↦ only w cluster_error
    | ok clients ↦ elim (clients.get_node name) [
      | err e ↦ only w not_found
      | ok node ↦ drain_node w user clients name cluster node
    ]
  ]

  abbrev pub drain_input : User → String → String → String → ApprovalInput
  drain_input user name cluster payload = record {
    user_id = user.telegram_id;
    username = user.username;
    action = "kubernetes.nodes.drain";
    resource = name;
    cluster = cluster;
    namespace = "";
    callback_data = payload;
  }

  -- A check that failed lets the drain through.
  unfoldable pub after_drain_check : Result (Bool × W) → W → User → String → String → Outcome W
  unfolding perform_drain
  after_drain_check (ok (true, w')) w user name cluster = only w' awaiting_approval
  after_drain_check (ok (false, w')) w user name cluster = perform_drain w' user name cluster
  after_drain_check (err e) w user name cluster = perform_drain w user name cluster

  unfoldable pub handle_node_drain_confirm : W → Option User → String → Outcome W
  unfolding after_drain_check
  handle_node_drain_confirm w none payload = only w unidentified
  handle_node_drain_confirm w (some user) payload = elim (split_n 2 payload) [
    | name ∷ cluster ∷ [] ↦
        after_drain_check (services.check_and_submit w (drain_input user name cluster payload)) w
          user name cluster
    | _ ↦ only w invalid_data
  ]
