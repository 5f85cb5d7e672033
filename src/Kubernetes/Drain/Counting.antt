-- ===== src/Kubernetes/Drain/Counting.antt =====
-- Which pods the drain of internal/module/kubernetes/nodes.go evicts, and how it counts them.
use mathlib.Core.List.{append_assoc, append-nil}
use telekube.Base.{
  ℕ, ◌+◌, String, Bool, true, false, not, ◌&&◌, ◌≡◌, sym, ap, ◌∙◌, List, [], ◌∷◌, ◌++◌, map, select,
  count_if, length, ltb, Error, ok, err, Result-cases, Bool-cases, inl, inr, arith, if◌then◌else◌,
}
use telekube.Entity.User.{User}
use telekube.Entity.Audit.{AuditEntry, audit_status_success, audit_status_error}
use telekube.Kubernetes.Api.{Pod, Node, ClientSet, Services, Request, update_node, evict, drained}
use telekube.Kubernetes.Drain.{
  is_daemon_set_pod, Evictions, evict_pod, evict_pods, no_evictions, evict_all, drain_node,
  perform_drain,
}

abbrev pub is_evictable : Pod → Bool
is_evictable pod = not (is_daemon_set_pod pod)

abbrev pub eviction : String → Pod → Request
eviction cluster pod = evict cluster pod.namespace pod.name

-- The server refuses to evict a pod that is not left out.
abbrev pub is_refused : ClientSet → Pod → Bool
is_refused clients pod =
    is_evictable pod
    && (elim (clients.evict pod.namespace pod.name) [ err e ↦ true | ok done ↦ false ])

module _ (clients : ClientSet) (cluster : String) where
  evict_pod-sent :
      (pod : Pod) (v : Evictions)
      → (evict_pod clients cluster pod v).sent ≡ v.sent ++ eviction cluster pod ∷ []
  unfolding evict_pod
  evict_pod-sent pod v = ground arith

  evict_pods_skips :
      (pod : Pod) (rest : List Pod) (v : Evictions)
      → is_daemon_set_pod pod ≡ true
      → evict_pods clients cluster (pod ∷ rest) v ≡ evict_pods clients cluster rest v
  unfolding evict_pods
  evict_pods_skips pod rest v daemon =
      ap (λ b. evict_pods clients cluster rest (if b then v else evict_pod clients cluster pod v))
        daemon

  evict_pods_evicts :
      (pod : Pod) (rest : List Pod) (v : Evictions)
      → is_daemon_set_pod pod ≡ false
      → evict_pods clients cluster (pod ∷ rest) v
        ≡ evict_pods clients cluster rest (evict_pod clients cluster pod v)
  unfolding evict_pods
  evict_pods_evicts pod rest v plain =
      ap (λ b. evict_pods clients cluster rest (if b then v else evict_pod clients cluster pod v))
        plain

  evict_pods-sent :
      (pods : List Pod) (v : Evictions)
      → (evict_pods clients cluster pods v).sent
        ≡ v.sent ++ map (eviction cluster) (select is_evictable pods)
  unfolding evict_pods
  evict_pods-sent [] v = sym (append-nil v.sent)
  evict_pods-sent (pod ∷ rest) v = elim (Bool-cases (is_daemon_set_pod pod)) [
    | inl daemon ↦ rw (evict_pods_skips pod rest v daemon, daemon) (evict_pods-sent rest v)
    | inr plain ↦
        rw
          (
            evict_pods_evicts pod rest v plain,
            plain,
            evict_pods-sent rest (evict_pod clients cluster pod v),
            evict_pod-sent pod v,
          )
          (append_assoc v.sent (eviction cluster pod ∷ [])
            (map (eviction cluster) (select is_evictable rest)))
  ]

  evict_pod_ok :
      (pod : Pod) (v : Evictions) (done : Unit {0})
      → clients.evict pod.namespace pod.name ≡ ok done
      → ((evict_pod clients cluster pod v).evicted ≡ v.evicted + 1)
        × ((evict_pod clients cluster pod v).failed_count ≡ v.failed_count)
  unfolding evict_pod
  evict_pod_ok pod v done e = ground arith

  evict_pod_err :
      (pod : Pod) (v : Evictions) (x : Error)
      → clients.evict pod.namespace pod.name ≡ err x
      → ((evict_pod clients cluster pod v).evicted ≡ v.evicted)
        × ((evict_pod clients cluster pod v).failed_count ≡ v.failed_count + 1)
  unfolding evict_pod
  evict_pod_err pod v x e = ground arith

  evict_pods-failed :
      (pods : List Pod) (v : Evictions)
      → (evict_pods clients cluster pods v).failed_count
        ≡ v.failed_count + count_if (is_refused clients) pods
  unfolding evict_pods
  evict_pods-failed [] v = omega arith
  evict_pods-failed (pod ∷ rest) v = elim (Bool-cases (is_daemon_set_pod pod)) [
    | inl daemon ↦ rw (evict_pods_skips pod rest v daemon, daemon) (evict_pods-failed rest v)
    | inr plain ↦ elim (Result-cases (clients.evict pod.namespace pod.name)) [
      | inl (done, e) ↦
          rw (evict_pods_evicts pod rest v plain, plain, e)
            (omega (
              arith,
              evict_pods-failed rest (evict_pod clients cluster pod v),
              (evict_pod_ok pod v done e).1,
            ))
      | inr (x, e) ↦
          rw (evict_pods_evicts pod rest v plain, plain, e)
            (omega (
              arith,
              evict_pods-failed rest (evict_pod clients cluster pod v),
              (evict_pod_err pod v x e).1,
            ))
    ]
  ]

  evict_pods-evicted :
      (pods : List Pod) (v : Evictions)
      → (evict_pods clients cluster pods v).evicted
          + (evict_pods clients cluster pods v).failed_count
          + count_if is_daemon_set_pod pods
        ≡ v.evicted + v.failed_count + length pods
  unfolding evict_pods
  evict_pods-evicted [] v = omega arith
  evict_pods-evicted (pod ∷ rest) v = elim (Bool-cases (is_daemon_set_pod pod)) [
    | inl daemon ↦
        rw (evict_pods_skips pod rest v daemon, daemon) (omega (arith, evict_pods-evicted rest v))
    | inr plain ↦ elim (Result-cases (clients.evict pod.namespace pod.name)) [
      | inl (done, e) ↦
          rw (evict_pods_evicts pod rest v plain, plain)
            (omega (
              arith,
              evict_pods-evicted rest (evict_pod clients cluster pod v),
              evict_pod_ok pod v done e,
            ))
      | inr (x, e) ↦
          rw (evict_pods_evicts pod rest v plain, plain)
            (omega (
              arith,
              evict_pods-evicted rest (evict_pod clients cluster pod v),
              evict_pod_err pod v x e,
            ))
    ]
  ]

abbrev pub statuses : List AuditEntry → List String
statuses audited = map (λ e. e.status) audited

module _ {W : Type 0} (services : Services W) (now : ℕ) (fresh : String) where
  -- The drain of a node that can be read, cordoned and listed asks the server to cordon it, then to evict
  -- its pods in their order but those of a daemon set. It reports numbers of evicted, skipped and refused
  -- pods that add up to the pods of the node, the last being those that the server refused, and its one
  -- audit entry is an error exactly if there are any.
  pub perform_drain-requests :
      (w : W) (user : User) (name cluster : String) (clients : ClientSet) (node : Node)
      (pods : List Pod)
      → services.client_set cluster ≡ ok clients
      → clients.get_node name ≡ ok node
      → clients.update_node (record node { unschedulable = true }) ≡ ok tt
      → clients.list_pods_on name ≡ ok pods
      → (evicted : ℕ) × ((perform_drain services now fresh w user name cluster).requests
          ≡ update_node cluster (record node { unschedulable = true })
            ∷ map (eviction cluster) (select is_evictable pods))
        × ((perform_drain services now fresh w user name cluster).reply
            ≡ drained evicted
                (count_if is_daemon_set_pod pods)
                (count_if (is_refused clients) pods))
        × (evicted + count_if is_daemon_set_pod pods + count_if (is_refused clients) pods
            ≡ length pods)
        × (statuses (perform_drain services now fresh w user name cluster).audited
            ≡ (if ltb 0 (count_if (is_refused clients) pods)
                then audit_status_error
                else audit_status_success)
              ∷ [])
  unfolding perform_drain drain_node evict_all
  perform_drain-requests w user name cluster clients node pods connects found cordons lists =
      let v = evict_pods clients cluster pods no_evictions in
      let failed = evict_pods-failed clients cluster pods no_evictions in
      (
        v.evicted,
        rw (perform_drain, connects, found, drain_node, cordons, lists)
            (ap (update_node cluster (record node { unschedulable = true }) ∷◌)
              (evict_pods-sent clients cluster pods no_evictions)),
        rw (perform_drain, connects, found, drain_node, cordons, lists)
            (ap (λ f. drained v.evicted (count_if is_daemon_set_pod pods) f)
              (failed ∙ omega arith)),
        omega (arith, evict_pods-evicted clients cluster pods no_evictions, failed),
        rw (perform_drain, connects, found, drain_node, cordons, lists)
            (ap (λ f. (if ltb 0 f then audit_status_error else audit_status_success) ∷ [])
              (failed ∙ omega arith)),
      )
