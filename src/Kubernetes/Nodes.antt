-- ===== src/Kubernetes/Nodes.antt =====
-- internal/module/kubernetes/nodes.go: the list of nodes, their details, cordon and uncordon. The
-- metrics that the messages show are left out.
use Prim.Native.String.{◌++◌ as concat}
use telekube.Base.{
  ℕ, String, Bool, Option, none, some, List, [], ◌∷◌, ◌++◌, map, ◌==◌, string_keyed, if◌then◌else◌,
  ◌bar◌, Error, ok, err, split_n,
}
use telekube.Entity.User.{User}
use telekube.Entity.Audit.{AuditEntry, audit_status_success, audit_status_error}
use telekube.Rbac.Permissions.{
  kubernetes_nodes_view, kubernetes_nodes_cordon, kubernetes_nodes_drain,
}
use telekube.Kubernetes.Api.{
  Node, ClientSet, Services, update_node, Button, button, is_allowed, Reply, unidentified,
  invalid_data, forbidden, no_cluster, cluster_error, list_failed, not_found, failed, screen,
  Outcome, only, entry,
}

pub data NodeStatus : Type 0 where
  scheduling_disabled ready not_ready unknown_status no_condition : NodeStatus

unfoldable pub ready_condition : List (String × String) → NodeStatus
ready_condition [] = no_condition
ready_condition ((kind, status) ∷ rest) =
    if kind == "Ready"
    then if status == "True" then ready else if status == "False" then not_ready else unknown_status
    else ready_condition rest

unfoldable pub node_condition_display : Node → NodeStatus
unfolding ready_condition
node_condition_display node =
    if node.unschedulable then scheduling_disabled else ready_condition node.conditions

module _ {W : Type 0} (services : Services W) (now : ℕ) (fresh : String) where
  unfoldable pub node_list : ClientSet → String → Reply
  node_list clients cluster = elim clients.list_nodes [
    | err e ↦ list_failed
    | ok nodes ↦ screen "nodes" (
        map (λ node. button "k8s_node_detail" (node.name bar cluster)) nodes
        ++ button "k8s_top_nodes" cluster ∷ button "k8s_nodes_refresh" cluster ∷ [])
  ]

  unfoldable pub send_node_list : Option User → Reply
  unfolding node_list
  send_node_list none = unidentified
  send_node_list (some user) =
      let cluster = services.get_cluster user.telegram_id in
      if cluster == "" then no_cluster else elim (services.client_set cluster) [
        | err e ↦ cluster_error
        | ok clients ↦ node_list clients cluster
      ]

  unfoldable pub handle_nodes : W → Option User → Reply
  unfolding send_node_list
  handle_nodes w none = unidentified
  handle_nodes w (some user) =
      if is_allowed services w user kubernetes_nodes_view
      then send_node_list (some user)
      else forbidden

  -- The buttons of the details: those for which the user has the permission.
  unfoldable pub node_buttons : W → Option User → Node → String → List Button
  node_buttons w none node payload = button "k8s_node_top_pods" payload ∷ []
  node_buttons w (some user) node payload =
      (if is_allowed services w user kubernetes_nodes_cordon
        then button (if node.unschedulable then "k8s_node_uncordon" else "k8s_node_cordon") payload
          ∷ []
        else [])
      ++ (if is_allowed services w user kubernetes_nodes_drain
          then button "k8s_node_drain" payload ∷ []
          else [])
      ++ button "k8s_node_top_pods" payload ∷ []

  unfoldable pub node_detail : W → Option User → String → String → Reply
  unfolding node_buttons
  node_detail w user name cluster = elim (services.client_set cluster) [
    | err e ↦ cluster_error
    | ok clients ↦ elim (clients.get_node name) [
      | err e ↦ not_found
      | ok node ↦
          screen name
            (node_buttons w user node (name bar cluster) ++ button "k8s_nodes_back" cluster ∷ [])
    ]
  ]

  unfoldable pub handle_node_detail : W → Option User → String → Reply
  unfolding node_detail
  handle_node_detail w user payload = elim (split_n 2 payload) [
    | name ∷ cluster ∷ [] ↦ node_detail w user name cluster
    | _ ↦ invalid_data
  ]

  -- The dialogs of handleNodeCordon and handleNodeUncordon.
  unfoldable pub confirmation : String → String → Reply
  confirmation confirm payload = elim (split_n 2 payload) [
    | name ∷ cluster ∷ [] ↦
        screen name (button confirm payload ∷ button "k8s_node_detail" payload ∷ [])
    | _ ↦ invalid_data
  ]

  unfoldable pub handle_node_cordon : String → Reply
  unfolding confirmation
  handle_node_cordon payload = confirmation "k8s_node_cordon_confirm" payload

  unfoldable pub handle_node_uncordon : String → Reply
  unfolding confirmation
  handle_node_uncordon payload = confirmation "k8s_node_uncordon_confirm" payload

  abbrev pub cordon_entry : User → Bool → String → String → String → Option Error → AuditEntry
  cordon_entry user cordon name cluster status error =
      entry fresh now user.telegram_id user.username
        (if cordon then "node.cordon" else "node.uncordon") (concat "node/" name) cluster "" status
        error []

  -- The node is sent back as it was read, with the flag changed.
  unfoldable pub cordon_node : W → User → Bool → ClientSet → String → String → Node → Outcome W
  cordon_node w user cordon clients name cluster node =
      let node' = record node { unschedulable = cordon } in
      let answer = clients.update_node node' in
      record {
        reply = elim answer [
          | err e ↦ failed
          | ok done ↦
              screen name
                (button "k8s_node_detail" (name bar cluster) ∷ button "k8s_nodes_back" cluster ∷ [])
        ];
        requests = update_node cluster node' ∷ [];
        audited = elim answer [
          | err e ↦ cordon_entry user cordon name cluster audit_status_error (some e) ∷ []
          | ok done ↦ cordon_entry user cordon name cluster audit_status_success none ∷ []
        ];
        after = w;
      }

  unfoldable pub cordon_on : W → User → Bool → String → String → Outcome W
  unfolding cordon_node
  cordon_on w user cordon name cluster = elim (services.client_set cluster) [
    | err e ↦ only w cluster_error
    | ok clients ↦ elim (clients.get_node name) [
      | err e ↦ only w not_found
      | ok node ↦ cordon_node w user cordon clients name cluster node
    ]
  ]

  unfoldable pub perform_cordon : W → Option User → Bool → String → Outcome W
  unfolding cordon_on
  perform_cordon w none cordon payload = only w unidentified
  perform_cordon w (some user) cordon payload = elim (split_n 2 payload) [
    | name ∷ cluster ∷ [] ↦ cordon_on w user cordon name cluster
    | _ ↦ only w invalid_data
  ]
