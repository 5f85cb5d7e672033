-- ===== src/Watcher/Pods.antt =====
-- internal/module/watcher/pod_watcher.go: the checks on a changed pod, and the alerts they send.
use Prim.Native.String.{◌++◌ as concat}
use telekube.Base.{
  ℕ, ◌+◌, ◌-◌, String, Bool, false, Option, none, some, List, [], ◌∷◌, ◌++◌, map, ltb, leb,
  if◌then◌else◌, ◌==◌, ◌&&◌, ◌||◌, not, string_keyed,
}
use telekube.Watcher.AlertCache.{AlertCache, default_cooldown, admit}

abbrev pub pending_threshold : ℕ
pending_threshold = 300_000_000_000

abbrev pub restart_threshold : ℕ
restart_threshold = 5

pub data Severity : Type 0 where
  critical : Severity
  warning : Severity

-- The parts of Kubernetes' container status and pod that the checks read; a missing state is `none`.
pub record ContainerStatus : Type 0 where
  pub name : String
  pub terminated : Option String
  pub waiting : Option String
  pub restart_count : ℕ
  pub image : String

pub record Pod : Type 0 where
  pub name : String
  pub namespace : String
  pub containers : List ContainerStatus
  pub phase : String
  pub reason : String
  pub status_message : String
  pub created_at : Option ℕ

-- The text of the alert, with what is printed in it.
pub data Message : Type 0 where
  memory_limit : Message
  crashing : ℕ → Message
  cannot_pull : String → Message
  restarts : ℕ → Message
  stuck_pending : ℕ → Message
  evicted : String → Message

pub record Alert : Type 0 where
  pub cluster : String
  pub namespace : String
  pub pod : String
  pub condition : String
  pub container : String
  pub severity : Severity
  pub alert_message : Message

abbrev pub alert_key : String → Pod → String → String
alert_key cluster pod condition =
    concat cluster
      (concat "/" (concat pod.namespace (concat "/" (concat pod.name (concat "/" condition)))))

-- The cache and the alerts that have been sent, in their order.
abbrev pub Sent : Type 0
Sent = AlertCache × List Alert

unfoldable pub alert : ℕ → String → Pod → String → String → Severity → Message → Sent → Sent
unfolding admit
alert now cluster pod condition container severity message (cache, sent) =
    let (goes_out, cache') = admit default_cooldown cache now (alert_key cluster pod condition) in
    if goes_out
    then (
      cache',
      sent
          ++ record {
            cluster = cluster;
            namespace = pod.namespace;
            pod = pod.name;
            condition = condition;
            container = container;
            severity = severity;
            alert_message = message;
          }
            ∷ [],
    )
    else (cache', sent)

-- `if test { … }`
abbrev pub when : Bool → (Sent → Sent) → Sent → Sent
when test f s = if test then f s else s

-- `reason != nil && *reason == r`
abbrev pub is_reason : Option String → String → Bool
is_reason none r = false
is_reason (some reason) r = reason == r

-- The loop over the old statuses: an alert for each of the same name with fewer restarts.
unfoldable pub check_restarts :
    ℕ → String → Pod → ContainerStatus → List ContainerStatus → Sent → Sent
unfolding alert
check_restarts now cluster pod cs [] s = s
check_restarts now cluster pod cs (old ∷ rest) s = check_restarts now cluster pod cs rest (
    when (old.name == cs.name && ltb old.restart_count cs.restart_count)
      (alert now cluster pod "HighRestarts" cs.name warning (restarts cs.restart_count)) s)

unfoldable pub check_container :
    ℕ → String → Pod → List ContainerStatus → ContainerStatus → Sent → Sent
unfolding alert check_restarts
check_container now cluster pod old cs s0 =
    let s1 =
      when (is_reason cs.terminated "OOMKilled")
        (alert now cluster pod "OOMKilled" cs.name critical memory_limit) s0 in
    let s2 =
      when (is_reason cs.waiting "CrashLoopBackOff")
        (alert now cluster pod "CrashLoopBackOff" cs.name critical (crashing cs.restart_count))
        s1 in
    let s3 =
      when (is_reason cs.waiting "ImagePullBackOff" || is_reason cs.waiting "ErrImagePull")
        (alert now cluster pod "ImagePullBackOff" cs.name warning (cannot_pull cs.image)) s2 in
    when (leb restart_threshold cs.restart_count) (check_restarts now cluster pod cs old) s3

unfoldable pub check_containers :
    ℕ → String → Pod → List ContainerStatus → List ContainerStatus → Sent → Sent
unfolding check_container
check_containers now cluster pod old [] s = s
check_containers now cluster pod old (cs ∷ rest) s =
    check_containers now cluster pod old rest (check_container now cluster pod old cs s)

-- A zero creation time is `none`; the age is printed in whole seconds.
unfoldable pub check_pending : ℕ → String → Pod → Sent → Sent
unfolding alert
check_pending now cluster pod s = elim pod.created_at [
  | none ↦ s
  | some t ↦
      when (pod.phase == "Pending" && ltb (t + pending_threshold) now)
        (alert now cluster pod "PendingTooLong" "" warning (stuck_pending (now - t))) s
]

unfoldable pub check_pod : ℕ → String → Pod → Pod → Sent → Sent
unfolding alert check_containers check_pending
check_pod now cluster old_pod new_pod s =
    when
      (new_pod.phase == "Failed" && new_pod.reason == "Evicted" && not (old_pod.phase == "Failed"))
      (alert now cluster new_pod "Evicted" "" critical (evicted new_pod.status_message))
      (check_pending now cluster new_pod
        (check_containers now cluster new_pod old_pod.containers new_pod.containers s))

-- `sendToChats`: the chats and administrators that an alert goes to, failures to send included.
unfoldable pub send_to_chats : List ℕ → List ℕ → Alert → List (ℕ × Alert)
send_to_chats allowed_chats admin_ids a =
    map (λ id. (id, a)) allowed_chats ++ map (λ id. (id, a)) admin_ids
