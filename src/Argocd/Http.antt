-- ===== src/Argocd/Http.antt =====
-- pkg/argocd/client.go: the operations of the client of the ArgoCD API. How encoding/json reads a body into
-- each type is an argument.
use Prim.Native.String.{◌++◌ as concat}
use telekube.Base.{
  ℕ, ◌+◌, String, Option, none, some, List, [], ◌∷◌, ◌++◌, map, ◌==◌, string_keyed, ◌&&◌,
  if◌then◌else◌, wrapped, Result, ok, err,
}
use telekube.Argocd.Services.{SyncOpts, DiffResult, SyncResult, RollbackResult, Client}
use telekube.Argocd.Requests.{
  Attempt, Payload, no_payload, sync_payload, rollback_payload, disable_payload, enable_payload,
  Request, default_max_retries, decoded, do_json,
}

-- The JSON of the server.
pub record RawResource : Type 0 where
  pub kind : String
  pub name : String
  pub namespace : String
  pub group : String
  pub version : String
  pub status : String
  pub health : Option String
  pub normalized_live_state : String
  pub predicted_live_state : String

pub record RawHistory : Type 0 where
  pub id : ℕ
  pub revision : String
  pub deployed_at : ℕ
  pub initiated_by : Option String

pub record RawApp : Type 0 where
  pub name : String
  pub namespace : String
  pub project : String
  pub repo_url : String
  pub path : String
  pub target_revision : String
  pub sync_status : String
  pub revision : String
  pub health_status : String
  pub operation : Option (ℕ × String)
  pub resources : List RawResource
  pub history : List RawHistory

pub record Application : Type 0 where
  pub name : String
  pub namespace : String
  pub project : String
  pub repo_url : String
  pub path : String
  pub target_rev : String
  pub sync_status : String
  pub health_status : String
  pub current_rev : String
  pub last_sync_at : Option ℕ
  pub last_sync_by : String

pub record ManagedResource : Type 0 where
  pub kind : String
  pub name : String
  pub namespace : String
  pub group : String
  pub version : String
  pub status : String
  pub health : String
  pub normalized_live_state : String
  pub predicted_live_state : String

pub record RevisionHistory : Type 0 where
  pub id : ℕ
  pub revision : String
  pub deployed_at : ℕ
  pub deployed_by : String

abbrev pub or_empty : Option String → String
or_empty none = ""
or_empty (some s) = s

unfoldable pub app_from_raw : RawApp → Application
app_from_raw raw = record {
  name = raw.name;
  namespace = raw.namespace;
  project = raw.project;
  repo_url = raw.repo_url;
  path = raw.path;
  target_rev = raw.target_revision;
  sync_status = raw.sync_status;
  health_status = raw.health_status;
  current_rev = raw.revision;
  last_sync_at = elim raw.operation [ none ↦ none | some (t, by) ↦ some t ];
  last_sync_by = elim raw.operation [ none ↦ "" | some (t, by) ↦ by ];
}

unfoldable pub managed_resource : RawResource → ManagedResource
managed_resource r = record {
  kind = r.kind;
  name = r.name;
  namespace = r.namespace;
  group = r.group;
  version = r.version;
  status = r.status;
  health = or_empty r.health;
  normalized_live_state = r.normalized_live_state;
  predicted_live_state = r.predicted_live_state;
}

unfoldable pub revision_history : RawHistory → RevisionHistory
revision_history h = record {
  id = h.id;
  revision = h.revision;
  deployed_at = h.deployed_at;
  deployed_by = or_empty h.initiated_by;
}

-- The loop of `GetApplicationDiff`.
unfoldable pub add_diffs : List ManagedResource → DiffResult → DiffResult
add_diffs [] diff = diff
add_diffs (r ∷ rest) diff =
    let live = r.normalized_live_state in
    let target = r.predicted_live_state in
    add_diffs rest (
      if live == "" && target == "" then diff else record diff {
        changed = diff.changed + (if live == target then 0 else 1);
        resources =
            diff.resources
            ++ record {
              kind = r.kind;
              name = r.name;
              namespace = r.namespace;
              diff = if live == target then "" else "~ changed";
              live = live;
              target = target;
            }
              ∷ [];
      })

abbrev pub get_request : String → Request
get_request path = record { method = "GET"; path = path; payload = no_payload }

abbrev pub app_path : String → String
app_path name = concat "/api/v1/applications/" name

-- What json.Unmarshal reads, for each type that is asked for; `zero_app` has no field set.
pub record Json : Type 0 where
  pub app : String → Result RawApp
  pub apps : String → Result (List RawApp)
  pub resources : String → Result (List RawResource)
  pub sync : String → Result SyncResult
  pub rollback : String → Result RollbackResult
  pub policy : String → Result (Unit {0})
  pub zero_app : RawApp

module _ (server : Request → ℕ → Attempt) (json : Json) where
  unfoldable pub call : {A : Type 0} → Request → (String → Result A) → Result A
  unfolding do_json
  call request read = (do_json (server request) read default_max_retries).0

  -- `fmt.Errorf("…: %w", err)` around an error.
  abbrev pub context : {A : Type 0} → String → Result A → Result A
  context text (err e) = err (wrapped text e)
  context text (ok a) = ok a

  abbrev pub read_app : String → Result RawApp
  read_app = decoded json.zero_app json.app

  unfoldable pub list_applications : Result (List Application)
  unfolding call app_from_raw
  list_applications = elim (call (get_request "/api/v1/applications") (decoded [] json.apps)) [
    | err e ↦ err (wrapped "listing applications: %w" e)
    | ok raw ↦ ok (map app_from_raw raw)
  ]

  unfoldable pub get_application : String → Result Application
  unfolding call app_from_raw
  get_application name = elim (call (get_request (app_path name)) read_app) [
    | err e ↦ err (wrapped "getting application: %w" e)
    | ok raw ↦ ok (app_from_raw raw)
  ]

  unfoldable pub sync_application : String → SyncOpts → Result SyncResult
  unfolding call
  sync_application name opts = context "syncing application: %w" (
      call
        (record {
          method = "POST";
          path = concat (app_path name) "/sync";
          payload = sync_payload opts;
        })
        (decoded (record { phase = ""; message = ""; revision = "" }) json.sync))

  unfoldable pub rollback_application : String → ℕ → Result RollbackResult
  unfolding call
  rollback_application name revision = context "rolling back application: %w" (
      call
        (record {
          method = "POST";
          path = concat (app_path name) "/rollback";
          payload = rollback_payload revision;
        })
        (decoded (record { phase = ""; message = "" }) json.rollback))

  unfoldable pub get_application_history : String → Result (List RevisionHistory)
  unfolding call revision_history
  get_application_history name = elim (call (get_request (app_path name)) read_app) [
    | err e ↦ err (wrapped "getting application history: %w" e)
    | ok raw ↦ ok (map revision_history raw.history)
  ]

  unfoldable pub get_managed_resources : String → Result (List ManagedResource)
  unfolding call managed_resource
  get_managed_resources name =
      elim (call (get_request (concat (app_path name) "/managed-resources"))
        (decoded [] json.resources)) [
          | err e ↦ err (wrapped "getting managed resources: %w" e)
          | ok raw ↦ ok (map managed_resource raw)
        ]

  unfoldable pub get_application_diff : String → Result DiffResult
  unfolding get_managed_resources add_diffs
  get_application_diff name = elim (get_managed_resources name) [
    | err e ↦ err e
    | ok resources ↦ ok (
        add_diffs resources
          (record { app_name = name; changed = 0; added = 0; removed = 0; resources = [] }))
  ]

  abbrev pub ignore : String → Result (Unit {0})
  ignore body = ok tt

  abbrev pub patch : String → Payload → Request
  patch name payload = record { method = "PATCH"; path = app_path name; payload = payload }

  unfoldable pub disable_auto_sync : String → Result (Unit {0})
  unfolding call
  disable_auto_sync name = elim (call (get_request (app_path name)) (decoded tt json.policy)) [
    | err e ↦ err (wrapped "getting app for disable-autosync: %w" e)
    | ok raw ↦ context "disabling auto-sync: %w" (call (patch name disable_payload) ignore)
  ]

  unfoldable pub enable_auto_sync : String → Result (Unit {0})
  unfolding call
  enable_auto_sync name = context "enabling auto-sync: %w" (call (patch name enable_payload) ignore)

  -- The client as the handlers know it.
  unfoldable pub http_client : Client
  unfolding get_application_diff sync_application get_application_history rollback_application
  http_client = record {
    get_application_diff = get_application_diff;
    sync_application = sync_application;
    get_application_history = λ name. elim (get_application_history name) [
      | err e ↦ err e
      | ok history ↦ ok (map (λ h. h.id) history)
    ];
    rollback_application = rollback_application;
  }
