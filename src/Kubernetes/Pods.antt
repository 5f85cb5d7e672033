-- ===== src/Kubernetes/Pods.antt =====
-- internal/module/kubernetes/pods.go, restart.go and the restart of events.go: the list of pods, and
-- the deletion of one.
pub mod Paging
use Prim.Native.String.{◌++◌ as concat}
use telekube.Base.{
  ℕ, ◌+◌, ◌-◌, ◌*◌, ◌%◌, ◌^◌, String, Bool, true, false, Option, none, some, List, [], ◌∷◌, ◌++◌,
  map, ◌==◌, string_keyed, nat_keyed, not, ltb, leb, length, take, drop, if◌then◌else◌, ◌bar◌,
  Error, Result, ok, err, split_n, ◌||◌, result,
}
use telekube.Base.Numbers.{scan_int, print_int}
use telekube.Entity.User.{User}
use telekube.Entity.Audit.{
  AuditEntry, audit_status_success, audit_status_error, audit_status_denied,
}
use telekube.Rbac.Permissions.{kubernetes_pods_list, kubernetes_pods_restart}
use telekube.Telegram.Paginator.{new_paginator, total_pages}
use telekube.Kubernetes.Api.{
  Pod, ClientSet, Services, delete_pod, Button, button, is_allowed, Reply, unidentified,
  invalid_data, forbidden, no_cluster, cluster_error, list_failed, not_found, standalone, failed,
  cancelled, usage, namespaces, nothing_in, screen, slice_panic, Outcome, only, entry,
}

-- The first reason of a waiting container, if it is not empty.
unfoldable pub waiting_reason : List (Option String) → Option String
waiting_reason [] = none
waiting_reason (none ∷ rest) = waiting_reason rest
waiting_reason (some reason ∷ rest) =
    let later = waiting_reason rest in if reason == "" then later else some reason

unfoldable pub pod_status : Pod → String
unfolding waiting_reason
pod_status pod = elim (waiting_reason pod.waiting_reasons) [
  | some reason ↦ reason
  | none ↦ if pod.is_deleted then "Terminating" else pod.phase
]

abbrev pub page_size : ℕ
page_size = 8

-- `(page - 1) * pageSize` of an int, as a bit pattern.
abbrev pub start_of : ℕ → ℕ
start_of page = ((page - 1) * page_size) % 2 ^ 64

abbrev pub end_of : ℕ → ℕ → ℕ
end_of start n = if ltb n (start + page_size) then n else start + page_size

abbrev pub page_payload : String → String → ℕ → String
page_payload namespace cluster page = namespace bar (cluster bar print_int page)

unfoldable pub page_buttons : List Pod → String → String → ℕ → List Button
page_buttons pods cluster namespace page =
    let paginator = new_paginator (map (λ pod. pod.name) pods) page_size in
    button "k8s_pods_refresh" (page_payload namespace cluster page)
    ∷ ((if ltb 1 page
          then button "k8s_pods_page" (page_payload namespace cluster (page - 1)) ∷ []
          else [])
        ++ (if ltb page (total_pages paginator)
            then button "k8s_pods_page" (page_payload namespace cluster (page + 1)) ∷ []
            else [])
        ++ button "k8s_pods_info" "" ∷ [])

abbrev pub pod_button : String → Pod → Button
pod_button cluster pod = button "k8s_pod_detail" (pod.name bar (pod.namespace bar cluster))

-- `podList.Items[start:end]` panics if `start` is negative or behind `end`.
unfoldable pub pod_page : List Pod → String → String → ℕ → Reply
unfolding page_buttons
pod_page [] cluster namespace page = nothing_in namespace
pod_page (p ∷ ps) cluster namespace page =
    let pods = p ∷ ps in
    let start = start_of page in
    let stop = end_of start (length pods) in
    if leb (2 ^ 63) start || ltb stop start
    then slice_panic
    else screen namespace (
        map (pod_button cluster) (take (stop - start) (drop start pods))
        ++ page_buttons pods cluster namespace page)

module _ {W : Type 0} (services : Services W) (now : ℕ) (fresh : String) where
  unfoldable pub handle_pods : W → Option User → (String → Result (List String)) → Reply
  handle_pods w none get_namespaces = unidentified
  handle_pods w (some user) get_namespaces =
      let cluster = services.get_cluster user.telegram_id in
      if not (is_allowed services w user kubernetes_pods_list)
      then forbidden
      else if cluster == ""
      then no_cluster
      else elim (get_namespaces cluster) [ err e ↦ cluster_error | ok names ↦ namespaces names ]

  unfoldable pub send_pod_list : String → String → ℕ → Reply
  unfolding pod_page
  send_pod_list cluster namespace page = elim (services.client_set cluster) [
    | err e ↦ cluster_error
    | ok clients ↦ elim (clients.list_pods (if namespace == "_all" then "" else namespace)) [
      | err e ↦ list_failed
      | ok pods ↦ pod_page pods cluster namespace page
    ]
  ]

  unfoldable pub handle_namespace_select : Option User → String → Reply
  unfolding send_pod_list
  handle_namespace_select none payload = unidentified
  handle_namespace_select (some user) payload =
      send_pod_list (services.get_cluster user.telegram_id) payload 1

  -- The page of a text: 1 if it is no number, or one below 1.
  unfoldable pub read_page : String → ℕ
  unfolding scan_int
  read_page text = elim (scan_int text) [
    | none ↦ 1
    | some page ↦ if leb (2 ^ 63) page || ltb page 1 then 1 else page
  ]

  unfoldable pub handle_pods_page : String → Reply
  unfolding send_pod_list
  handle_pods_page payload = elim (split_n 3 payload) [
    | namespace ∷ cluster ∷ page ∷ [] ↦ send_pod_list cluster namespace (read_page page)
    | _ ↦ invalid_data
  ]

  unfoldable pub pod_detail : String → String → String → Reply
  pod_detail name namespace cluster = elim (services.client_set cluster) [
    | err e ↦ cluster_error
    | ok clients ↦ elim (clients.get_pod namespace name) [
      | err e ↦ not_found
      | ok pod ↦
          let payload = name bar (namespace bar cluster) in
          screen name (
            button "k8s_logs" payload
            ∷ button "k8s_events" payload
            ∷ button "k8s_restart" payload
            ∷ button "k8s_pods_back" (namespace bar cluster)
            ∷ [])
    ]
  ]

  unfoldable pub handle_pod_detail : String → Reply
  unfolding pod_detail
  handle_pod_detail payload = elim (split_n 3 payload) [
    | name ∷ namespace ∷ cluster ∷ [] ↦ pod_detail name namespace cluster
    | _ ↦ invalid_data
  ]

  unfoldable pub handle_restart_cancel : String → Reply
  unfolding pod_detail
  handle_restart_cancel payload = elim (split_n 3 payload) [
    | name ∷ namespace ∷ cluster ∷ [] ↦ pod_detail name namespace cluster
    | _ ↦ cancelled
  ]

  abbrev pub denied_restart : W → User → String → Outcome W
  denied_restart w user resource = record {
    reply = forbidden;
    requests = [];
    audited =
        entry fresh now user.telegram_id user.username "pod.restart" resource "" ""
          audit_status_denied none []
        ∷ [];
    after = w;
  }

  abbrev pub restart_dialog : String → String → Reply
  restart_dialog name payload =
      screen name (button "k8s_restart_confirm" payload ∷ button "k8s_restart_cancel" payload ∷ [])

  -- The button, and below it the command with its words.
  unfoldable pub handle_restart : W → Option User → String → Outcome W
  handle_restart w none payload = only w unidentified
  handle_restart w (some user) payload =
      if not (is_allowed services w user kubernetes_pods_restart)
      then denied_restart w user payload
      else elim (split_n 3 payload) [
        | name ∷ namespace ∷ cluster ∷ [] ↦ only w (restart_dialog name payload)
        | _ ↦ only w invalid_data
      ]

  unfoldable pub ask_restart : String → String → String → Reply
  ask_restart name namespace cluster = elim (services.client_set cluster) [
    | err e ↦ cluster_error
    | ok clients ↦ elim (clients.get_pod namespace name) [
      | err e ↦ not_found
      | ok pod ↦ elim pod.owner_kinds [
        | [] ↦ standalone
        | kind ∷ kinds ↦ restart_dialog name (name bar (namespace bar cluster))
      ]
    ]
  ]

  unfoldable pub restart_words : User → List String → Reply
  unfolding ask_restart
  restart_words user [] = usage
  restart_words user (command ∷ []) = usage
  restart_words user (command ∷ name ∷ rest) =
      let cluster = services.get_cluster user.telegram_id in
      if cluster == ""
      then no_cluster
      else ask_restart name (elim rest [ [] ↦ "default" | namespace ∷ more ↦ namespace ]) cluster

  unfoldable pub handle_restart_command : W → Option User → List String → Outcome W
  unfolding restart_words
  handle_restart_command w none words = only w unidentified
  handle_restart_command w (some user) words =
      if not (is_allowed services w user kubernetes_pods_restart)
      then denied_restart w user ""
      else only w (restart_words user words)

  abbrev pub restart_entry : User → String → String → String → String → Option Error → AuditEntry
  restart_entry user name namespace cluster status error =
      entry fresh now user.telegram_id user.username "pod.restart" (concat "pod/" name) cluster
        namespace status error []

  unfoldable pub delete_owned : W → User → ClientSet → String → String → String → Outcome W
  delete_owned w user clients name namespace cluster =
      let answer = clients.delete_pod namespace name in
      record {
        reply = elim answer [ err e ↦ failed | ok done ↦ screen name [] ];
        requests = delete_pod cluster namespace name ∷ [];
        audited = elim answer [
          | err e ↦ restart_entry user name namespace cluster audit_status_error (some e) ∷ []
          | ok done ↦ restart_entry user name namespace cluster audit_status_success none ∷ []
        ];
        after = w;
      }

  unfoldable pub restart_pod : W → User → String → String → String → Outcome W
  unfolding delete_owned
  restart_pod w user name namespace cluster = elim (services.client_set cluster) [
    | err e ↦ only w cluster_error
    | ok clients ↦ elim (clients.get_pod namespace name) [
      | err e ↦ only w not_found
      | ok pod ↦ elim pod.owner_kinds [
        | [] ↦ only w standalone
        | kind ∷ kinds ↦ delete_owned w user clients name namespace cluster
      ]
    ]
  ]

  unfoldable pub handle_restart_confirm : W → Option User → String → Outcome W
  unfolding restart_pod
  handle_restart_confirm w none payload = only w unidentified
  handle_restart_confirm w (some user) payload = elim (split_n 3 payload) [
    | name ∷ namespace ∷ cluster ∷ [] ↦ restart_pod w user name namespace cluster
    | _ ↦ only w invalid_data
  ]
