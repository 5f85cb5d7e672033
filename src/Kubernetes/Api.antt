-- ===== src/Kubernetes/Api.antt =====
-- What the handlers of internal/module/kubernetes call and answer. The answers of a Kubernetes server,
-- which come through client-go, are arguments; of its objects only the fields that are read stand here.
use telekube.Base.{ℕ, String, Bool, false, result, Option, List, [], Error, Result}
use telekube.Entity.User.{User}
use telekube.Entity.Audit.{AuditEntry}
use telekube.Approval.Manager.{ApprovalInput}

-- A deployment or a stateful set.
pub record Workload : Type 0 where
  pub name : String
  pub namespace : String
  pub replicas : Option ℕ
  pub ready_replicas : ℕ
  pub available_replicas : ℕ

pub record Pod : Type 0 where
  pub name : String
  pub namespace : String
  pub owner_kinds : List String
  pub waiting_reasons : List (Option String)
  pub is_deleted : Bool
  pub phase : String

pub record Node : Type 0 where
  pub name : String
  pub unschedulable : Bool
  pub conditions : List (String × String)

abbrev pub Done : Type 0
Done = Result (Unit {0})

-- The answers of one cluster's server.
pub record ClientSet : Type 0 where
  pub list_namespaces : Result (List String)
  pub list_deployments : String → Result (List Workload)
  pub list_stateful_sets : String → Result (List Workload)
  pub get_deployment : String → String → Result Workload
  pub get_stateful_set : String → String → Result Workload
  pub update_deployment_scale : String → String → ℕ → Done
  pub update_stateful_set_scale : String → String → ℕ → Done
  pub list_nodes : Result (List Node)
  pub get_node : String → Result Node
  pub update_node : Node → Done
  pub list_pods : String → Result (List Pod)
  pub list_pods_on : String → Result (List Pod)
  pub get_pod : String → String → Result Pod
  pub delete_pod : String → String → Done
  pub evict : String → String → Done

-- The permission check, the approval checker, the clusters and the users' choices.
pub record Services (W : Type 0) : Type 0 where
  pub has_permission : W → ℕ → String → Result Bool
  pub check_and_submit : W → ApprovalInput → Result (Bool × W)
  pub client_set : String → Result ClientSet
  pub get_cluster : ℕ → String

-- A request that changes a cluster, whose name comes first.
pub data Request : Type 0 where
  update_node : String → Node → Request
  evict : String → String → String → Request
  delete_pod : String → String → String → Request
  update_deployment_scale : String → String → String → ℕ → Request
  update_stateful_set_scale : String → String → String → ℕ → Request

-- A button of a message: the handler that it calls, and the data that it sends.
pub record Button : Type 0 where
  pub unique : String
  pub payload : String

abbrev pub button : String → String → Button
button unique payload = record { unique = unique; payload = payload }

-- `allowed, _ := m.rbac.HasPermission(…)`
abbrev pub is_allowed : {W : Type 0} → Services W → W → User → String → Bool
is_allowed services w user permission =
    result false (services.has_permission w user.telegram_id permission)

-- What the user is shown, without the texts.
pub data Reply : Type 0 where
  usage : Reply
  unidentified invalid_data invalid_count negative_count above_limit forbidden : Reply
  no_cluster cluster_error list_failed not_found unknown_kind standalone failed cancelled : Reply
  awaiting_approval : Reply
  namespaces : List String → Reply
  nothing_in : String → Reply
  screen : String → List Button → Reply
  drained : ℕ → ℕ → ℕ → Reply
  slice_panic : Reply

-- All that a handler does: its reply, its requests in their order, the audit entries, the state after.
pub record Outcome (W : Type 0) : Type 0 where
  pub reply : Reply
  pub requests : List Request
  pub audited : List AuditEntry
  pub after : W

abbrev pub only : {W : Type 0} → W → Reply → Outcome W
only w r = record { reply = r; requests = []; audited = []; after = w }

-- The fields of an audit entry that the handlers leave empty.
abbrev pub entry :
    String
    → ℕ
    → ℕ
    → String
    → String
    → String
    → String
    → String
    → String
    → Option Error
    → List (String × String)
    → AuditEntry
entry fresh now user_id username action resource cluster namespace status error details = record {
  id = fresh;
  user_id = user_id;
  username = username;
  action = action;
  resource = resource;
  cluster = cluster;
  namespace = namespace;
  chat_id = 0;
  chat_type = "";
  status = status;
  details = details;
  error = error;
  occurred_at = now;
}
