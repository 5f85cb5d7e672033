-- ===== src/Kubernetes/Scale.antt =====
-- internal/module/kubernetes/scale.go: from the namespace to the confirmed number of replicas. An int32
-- is the number of its 64-bit pattern, as fmt reads and prints it.
pub mod Buttons
use Prim.Native.String.{◌++◌ as concat}
use telekube.Base.{
  ℕ, ◌+◌, ◌-◌, ◌^◌, String, Bool, true, false, Option, none, some, List, [], ◌∷◌, ◌++◌, map, ◌==◌,
  ◌||◌, string_keyed, nat_keyed, not, ltb, leb, if◌then◌else◌, ◌bar◌, Error, Result, ok, err,
  split_n,
}
use telekube.Base.Numbers.{scan_int, print_int}
use telekube.Entity.User.{User}
use telekube.Entity.Audit.{AuditEntry, audit_status_success, audit_status_error}
use telekube.Approval.Manager.{ApprovalInput}
use telekube.Rbac.Permissions.{kubernetes_deployments_scale}
use telekube.Kubernetes.Api.{
  Workload, ClientSet, Services, Done, Request, update_deployment_scale, update_stateful_set_scale,
  Button, button, is_allowed, Reply, unidentified, invalid_data, invalid_count, negative_count,
  above_limit, forbidden, no_cluster, cluster_error, list_failed, not_found, unknown_kind, failed,
  cancelled, awaiting_approval, namespaces, nothing_in, screen, Outcome, only, entry,
}

abbrev pub scale_max_default : ℕ
scale_max_default = 50

-- fmt.Sscanf with "%d" into an int32.
unfoldable pub scan_int32 : String → Option ℕ
unfolding scan_int
scan_int32 s = elim (scan_int s) [
  | none ↦ none
  | some n ↦ if ltb n (2 ^ 31) || leb (2 ^ 64 - 2 ^ 31) n then some n else none
]

-- An int32 below zero, and `n - 1` and `n + 1` of those that are not.
abbrev pub is_negative : ℕ → Bool
is_negative n = leb (2 ^ 63) n

abbrev pub next_int32 : ℕ → ℕ
next_int32 n = if n == 2 ^ 31 - 1 then 2 ^ 64 - 2 ^ 31 else n + 1

-- `*d.Spec.Replicas`, or what stands there without it.
abbrev pub replicas_or : ℕ → Option ℕ → ℕ
replicas_or n none = n
replicas_or n (some m) = m

unfoldable pub get_workload : ClientSet → String → String → String → Option (Result Workload)
get_workload clients kind namespace name =
    if kind == "deploy"
    then some (clients.get_deployment namespace name)
    else if kind == "sts"
    then some (clients.get_stateful_set namespace name)
    else none

abbrev pub detail_payload : String → String → Workload → Button
detail_payload kind cluster w =
    button "k8s_scale_detail" (kind bar (w.name bar (w.namespace bar cluster)))

-- The buttons for the numbers of replicas; `base` is the data that each of them carries on.
unfoldable pub preset_buttons : String → ℕ → List ℕ → List Button
preset_buttons base current [] = []
preset_buttons base current (n ∷ rest) =
    let others = preset_buttons base current rest in
    if n == current then others else button "k8s_scale_set" (base bar print_int n) ∷ others

abbrev pub presets : List ℕ
presets = 1 ∷ 2 ∷ 3 ∷ 5 ∷ 10 ∷ []

unfoldable pub quick_buttons : String → ℕ → List Button
unfolding preset_buttons
quick_buttons base current =
    (if ltb 0 current then button "k8s_scale_set" (base bar print_int (current - 1)) ∷ [] else [])
    ++ preset_buttons base current presets
    ++ button "k8s_scale_set" (base bar print_int (next_int32 current)) ∷ []

module _ {W : Type 0} (services : Services W) (now : ℕ) (fresh : String) where
  -- `get_namespaces` answers for the cache and the cluster.
  unfoldable pub handle_scale : W → Option User → (String → Result (List String)) → Reply
  handle_scale w none get_namespaces = unidentified
  handle_scale w (some user) get_namespaces =
      let cluster = services.get_cluster user.telegram_id in
      if not (is_allowed services w user kubernetes_deployments_scale)
      then forbidden
      else if cluster == ""
      then no_cluster
      else elim (get_namespaces cluster) [ err e ↦ cluster_error | ok names ↦ namespaces names ]

  unfoldable pub resource_list : ClientSet → String → String → Reply
  resource_list clients cluster namespace =
      let listed = if namespace == "_all" then "" else namespace in
      elim (clients.list_deployments listed) [
        | err e ↦ list_failed
        | ok deployments ↦ elim (clients.list_stateful_sets listed) [
          | err e ↦ list_failed
          | ok stateful_sets ↦
              let buttons =
                map (detail_payload "deploy" cluster) deployments
                ++ map (detail_payload "sts" cluster) stateful_sets in
              elim buttons [
                | [] ↦ nothing_in namespace
                | b ∷ bs ↦ screen namespace ((b ∷ bs) ++ button "k8s_scale_back" cluster ∷ [])
              ]
        ]
      ]

  unfoldable pub send_scaleable_resources : String → String → Reply
  unfolding resource_list
  send_scaleable_resources cluster namespace = elim (services.client_set cluster) [
    | err e ↦ cluster_error
    | ok clients ↦ resource_list clients cluster namespace
  ]

  -- The data is taken for the namespace as it is.
  unfoldable pub handle_scale_namespace_select : Option User → String → Reply
  unfolding send_scaleable_resources
  handle_scale_namespace_select none payload = unidentified
  handle_scale_namespace_select (some user) payload =
      send_scaleable_resources (services.get_cluster user.telegram_id) payload

  unfoldable pub scale_detail : String → String → String → String → Reply
  unfolding get_workload quick_buttons
  scale_detail kind name namespace cluster = elim (services.client_set cluster) [
    | err e ↦ cluster_error
    | ok clients ↦ elim (get_workload clients kind namespace name) [
      | none ↦ unknown_kind
      | some (err e) ↦ not_found
      | some (ok w) ↦ screen name (
          quick_buttons (kind bar (name bar (namespace bar cluster))) (replicas_or 0 w.replicas)
          ++ button "k8s_scale_ns" (namespace bar cluster) ∷ [])
    ]
  ]

  unfoldable pub handle_scale_detail : String → Reply
  unfolding scale_detail
  handle_scale_detail payload = elim (split_n 4 payload) [
    | kind ∷ name ∷ namespace ∷ cluster ∷ [] ↦ scale_detail kind name namespace cluster
    | _ ↦ invalid_data
  ]

  unfoldable pub handle_scale_cancel : String → Reply
  unfolding scale_detail
  handle_scale_cancel payload = elim (split_n 4 payload) [
    | kind ∷ name ∷ namespace ∷ cluster ∷ [] ↦ scale_detail kind name namespace cluster
    | _ ↦ cancelled
  ]

  -- The dialog, if the workload is there or its kind is unknown.
  unfoldable pub confirm_dialog : String → String → String → String → String → Reply
  unfolding get_workload
  confirm_dialog payload kind name namespace cluster = elim (services.client_set cluster) [
    | err e ↦ cluster_error
    | ok clients ↦ elim (get_workload clients kind namespace name) [
      | some (err e) ↦ not_found
      | _ ↦ screen name (
          button "k8s_scale_confirm" payload
          ∷ button "k8s_scale_cancel" (kind bar (name bar (namespace bar cluster)))
          ∷ [])
    ]
  ]

  unfoldable pub scale_set : String → String → String → String → String → String → Reply
  unfolding scan_int32 confirm_dialog
  scale_set payload kind name namespace cluster count = elim (scan_int32 count) [
    | none ↦ invalid_count
    | some target ↦
        if is_negative target
        then negative_count
        else if ltb scale_max_default target
        then above_limit
        else confirm_dialog payload kind name namespace cluster
  ]

  unfoldable pub handle_scale_set : Option User → String → Reply
  unfolding scale_set
  handle_scale_set none payload = unidentified
  handle_scale_set (some user) payload = elim (split_n 5 payload) [
    | kind ∷ name ∷ namespace ∷ cluster ∷ count ∷ [] ↦
        scale_set payload kind name namespace cluster count
    | _ ↦ invalid_data
  ]

  -- `UpdateScale` for the two kinds, and what it answers. Another kind sends nothing, and is no error.
  unfoldable pub update_scale :
      ClientSet → String → String → String → String → ℕ → List Request × Done
  update_scale clients cluster kind namespace name target =
      if kind == "deploy"
      then (
        update_deployment_scale cluster namespace name target ∷ [],
        clients.update_deployment_scale namespace name target,
      )
      else if kind == "sts"
      then (
        update_stateful_set_scale cluster namespace name target ∷ [],
        clients.update_stateful_set_scale namespace name target,
      )
      else ([], ok tt)

  abbrev pub kind_label : String → String
  kind_label kind = if kind == "sts" then "StatefulSet" else "Deployment"

  abbrev pub scale_entry :
      User → String → String → String → String → ℕ → String → Option Error → AuditEntry
  scale_entry user kind name namespace cluster target status error =
      entry fresh now user.telegram_id user.username (concat kind ".scale")
        (concat (kind_label kind) (concat "/" name)) cluster namespace status error
        (("target_replicas", print_int target) ∷ [])

  unfoldable pub run_scale : W → User → String → String → String → String → ℕ → Outcome W
  unfolding update_scale
  run_scale w user kind name namespace cluster target = elim (services.client_set cluster) [
    | err e ↦ only w cluster_error
    | ok clients ↦
        let (sent, answer) = update_scale clients cluster kind namespace name target in
        record {
          reply = elim answer [ err e ↦ failed | ok done ↦ screen name [] ];
          requests = sent;
          audited = elim answer [
            | err e ↦
                scale_entry user kind name namespace cluster target audit_status_error (some e) ∷ []
            | ok done ↦
                scale_entry user kind name namespace cluster target audit_status_success none ∷ []
          ];
          after = w;
        }
  ]

  abbrev pub scale_input : User → String → String → String → String → ApprovalInput
  scale_input user name namespace cluster payload = record {
    user_id = user.telegram_id;
    username = user.username;
    action = "kubernetes.deployments.scale";
    resource = name;
    cluster = cluster;
    namespace = namespace;
    callback_data = payload;
  }

  -- A check that failed lets the scaling through.
  unfoldable pub after_scale_check :
      Result (Bool × W) → W → User → String → String → String → String → ℕ → Outcome W
  unfolding run_scale
  after_scale_check (ok (true, w')) w user kind name namespace cluster target =
      only w' awaiting_approval
  after_scale_check (ok (false, w')) w user kind name namespace cluster target =
      run_scale w' user kind name namespace cluster target
  after_scale_check (err e) w user kind name namespace cluster target =
      run_scale w user kind name namespace cluster target

  unfoldable pub confirm_scale :
      W → User → String → String → String → String → String → String → Outcome W
  unfolding scan_int32 after_scale_check
  confirm_scale w user payload kind name namespace cluster count = elim (scan_int32 count) [
    | none ↦ only w invalid_count
    | some target ↦
        after_scale_check
          (services.check_and_submit w (scale_input user name namespace cluster payload)) w user
          kind name namespace cluster target
  ]

  unfoldable pub handle_scale_confirm : W → Option User → String → Outcome W
  unfolding confirm_scale
  handle_scale_confirm w none payload = only w unidentified
  handle_scale_confirm w (some user) payload = elim (split_n 5 payload) [
    | kind ∷ name ∷ namespace ∷ cluster ∷ count ∷ [] ↦
        confirm_scale w user payload kind name namespace cluster count
    | _ ↦ only w invalid_data
  ]
