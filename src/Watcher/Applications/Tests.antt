-- ===== src/Watcher/Applications/Tests.antt =====
-- Runs of the watcher of an ArgoCD server, and the theorem at concrete inputs.
use telekube.Base.{
  String, true, none, List, [], ◌∷◌, select, string_keyed, not_found, Result, ok, err, ◌≡◌, refl,
}
use telekube.Argocd.Http.{Application}
use telekube.Watcher.Applications.{
  Config, Notice, new_app, deleted_app, status_change, remember_all, seed_initial_state, check_app,
  check_apps, drop_deleted, poll, run_polls, run, send,
}
use telekube.Watcher.Applications.Memory.{listed, last_answer}
use telekube.Watcher.Applications.Changes.{changes, about, poll-run}

abbrev application : String → String → Application
application name health = record {
  name = name;
  namespace = "argocd";
  project = "default";
  repo_url = "";
  path = "";
  target_rev = "";
  sync_status = "Synced";
  health_status = health;
  current_rev = "";
  last_sync_at = none;
  last_sync_by = "";
}

abbrev cfg : Config
cfg = record { notify_on_health_change = true; notify_on_sync_change = true }

abbrev first : Result (List Application)
first = ok (application "api" "Healthy" ∷ application "db" "Healthy" ∷ [])

abbrev listings : List (Result (List Application))
listings =
    err not_found
    ∷ ok (
        application "api" "Healthy" ∷ application "db" "Healthy" ∷ application "job" "Healthy" ∷ [])
    ∷ []

abbrev apps : List Application
apps = application "api" "Degraded" ∷ application "web" "Healthy" ∷ application "job" "Healthy" ∷ []

tells :
    (poll cfg (ok apps) (run cfg first listings)).1
    ≡ status_change (application "api" "Healthy") (application "api" "Degraded")
      ∷ new_app (application "web" "Healthy")
      ∷ deleted_app (application "db" "Healthy")
      ∷ []
unfolding poll run run_polls seed_initial_state remember_all check_apps check_app drop_deleted
tells = refl

-- Without a first answer every application is told of as a new one.
tells_all :
    (poll cfg (ok (application "db" "Healthy" ∷ [])) (run cfg (err not_found) [])).1
    ≡ new_app (application "db" "Healthy") ∷ []
unfolding poll run run_polls seed_initial_state check_apps check_app drop_deleted
tells_all = refl

-- The chat that a notice is sent to is no chat of the configuration.
chat_zero : (n : Notice) → send true n ≡ (0, n) ∷ []
unfolding send
chat_zero n = refl

poll-run_example :
    select (about "db") (poll cfg (ok apps) (run cfg first listings)).1
    ≡ changes cfg (listed (last_answer [] (first ∷ listings)) "db") (listed apps "db")
poll-run_example = poll-run cfg first listings apps "db" (refl, (refl, (refl, tt)))
