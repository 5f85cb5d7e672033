-- ===== src/Watcher/Nodes.antt =====
-- internal/module/watcher/node_watcher.go: the checks on a changed node, and the alerts they send. The
-- reason and the message of a condition, and the number of pods, are only printed.
use Prim.Native.String.{◌++◌ as concat}
use telekube.Base.{
  ℕ, String, Option, none, some, List, [], ◌∷◌, ◌++◌, map, if◌then◌else◌, ◌==◌, ◌&&◌, not,
  string_keyed,
}
use telekube.Watcher.AlertCache.{AlertCache, default_cooldown, admit}
use telekube.Watcher.Pods.{Severity, critical, warning}

-- The type and the status of each condition.
pub record Node : Type 0 where
  pub name : String
  pub conditions : List (String × String)

pub record NodeAlert : Type 0 where
  pub cluster : String
  pub node : String
  pub condition : String
  pub severity : Severity
  pub mute_key : String

abbrev pub Sent : Type 0
Sent = AlertCache × List NodeAlert

abbrev pub node_key : String → String → String → String
node_key cluster node condition = concat cluster (concat "/" (concat node (concat "/" condition)))

-- The map of the old statuses, where a later condition of a type replaces the one before.
unfoldable pub last_status : List (String × String) → String → String → String
last_status [] kind found = found
last_status ((k, status) ∷ rest) kind found =
    last_status rest kind (if k == kind then status else found)

unfoldable pub old_status : List (String × String) → String → String
unfolding last_status
old_status conditions kind = last_status conditions kind ""

unfoldable pub alert : ℕ → String → Node → String → Severity → Sent → Sent
unfolding admit
alert now cluster node condition severity (cache, sent) =
    let key = node_key cluster node.name condition in
    let (goes_out, cache') = admit default_cooldown cache now key in
    if goes_out
    then (
      cache',
      sent
          ++ record {
            cluster = cluster;
            node = node.name;
            condition = condition;
            severity = severity;
            mute_key = key;
          }
            ∷ [],
    )
    else (cache', sent)

-- The alert that a condition raises, from its old and its new status.
unfoldable pub transition : String → String → String → Option (String × Severity)
transition kind old new =
    if kind == "Ready"
    then if old == "True" && new == "False"
      then some ("NotReady", critical)
      else if old == "True" && new == "Unknown"
      then some ("Unreachable", critical)
      else none
    else if kind == "DiskPressure"
    then if not (old == "True") && new == "True" then some ("DiskPressure", warning) else none
    else if kind == "MemoryPressure"
    then if not (old == "True") && new == "True" then some ("MemoryPressure", warning) else none
    else if kind == "PIDPressure"
    then if not (old == "True") && new == "True" then some ("PIDPressure", warning) else none
    else none

unfoldable pub check_conditions :
    ℕ → String → Node → List (String × String) → List (String × String) → Sent → Sent
unfolding alert transition old_status
check_conditions now cluster node old [] s = s
check_conditions now cluster node old ((kind, status) ∷ rest) s =
    check_conditions now cluster node old rest
      (elim (transition kind (old_status old kind) status) [
        | none ↦ s
        | some (condition, severity) ↦ alert now cluster node condition severity s
      ])

unfoldable pub check_node : ℕ → String → Node → Node → Sent → Sent
unfolding check_conditions
check_node now cluster old_node new_node s =
    check_conditions now cluster new_node old_node.conditions new_node.conditions s

unfoldable pub send_to_chats : List ℕ → List ℕ → NodeAlert → List (ℕ × NodeAlert)
send_to_chats allowed_chats admin_ids a =
    map (λ id. (id, a)) allowed_chats ++ map (λ id. (id, a)) admin_ids
