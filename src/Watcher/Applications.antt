-- ===== src/Watcher/Applications.antt =====
-- internal/module/watcher/argocd_watcher.go: what the watcher of an ArgoCD server remembers of its
-- applications, and what it tells of their changes. The listings that the server answers are arguments.
pub mod Memory
pub mod Changes
mod Tests
use telekube.Base.{
  ℕ, String, Bool, Option, none, some, List, [], ◌∷◌, ◌++◌, map, any, get, put, if◌then◌else◌, ◌==◌,
  string_keyed, ◌&&◌, ◌||◌, not, Result, ok, err,
}
use telekube.Argocd.Http.{Application}

pub record Config : Type 0 where
  pub notify_on_health_change : Bool
  pub notify_on_sync_change : Bool

-- The last known state: Go's map from names.
abbrev pub LastState : Type 0
LastState = List (String × Application)

pub data Notice : Type 0 where
  new_app : Application → Notice
  status_change : Application → Application → Notice
  deleted_app : Application → Notice

-- The state after an entry is written for each application.
unfoldable pub remember_all : List Application → LastState → LastState
remember_all [] s = s
remember_all (app ∷ apps) s = remember_all apps (put s app.name app)

unfoldable pub seed_initial_state : Result (List Application) → LastState → LastState
unfolding remember_all
seed_initial_state (err e) s = s
seed_initial_state (ok apps) s = remember_all apps s

abbrev pub is_told : Config → Application → Application → Bool
is_told cfg prev app =
    (not (prev.health_status == app.health_status) && cfg.notify_on_health_change)
    || (not (prev.sync_status == app.sync_status) && cfg.notify_on_sync_change)

unfoldable pub check_app : Config → Application → LastState → LastState × List Notice
check_app cfg app s = elim (get s app.name) [
  | none ↦ (put s app.name app, new_app app ∷ [])
  | some prev ↦
      if is_told cfg prev app
      then (put s app.name app, status_change prev app ∷ [])
      else (put s app.name app, [])
]

unfoldable pub check_apps : Config → List Application → LastState → LastState × List Notice
unfolding check_app
check_apps cfg [] s = (s, [])
check_apps cfg (app ∷ apps) s =
    let (s1, told) = check_app cfg app s in
    let (s2, later) = check_apps cfg apps s1 in (s2, told ++ later)

-- Whether the listing has an application of the name.
abbrev pub still_exists : List Application → String → Bool
still_exists apps name = any (λ app. app.name == name) apps

-- The entries are looked at in the order of the list; Go leaves the order open.
unfoldable pub drop_deleted : List Application → LastState → LastState × List Notice
drop_deleted apps [] = ([], [])
drop_deleted apps ((name, app) ∷ rest) =
    let (s, told) = drop_deleted apps rest in
    if still_exists apps name then ((name, app) ∷ s, told) else (s, deleted_app app ∷ told)

unfoldable pub poll : Config → Result (List Application) → LastState → LastState × List Notice
unfolding check_apps drop_deleted
poll cfg (err e) s = (s, [])
poll cfg (ok apps) s =
    let (s1, told) = check_apps cfg apps s in
    let (s2, gone) = drop_deleted apps s1 in (s2, told ++ gone)

-- Each notice goes to the chat 0.
unfoldable pub send : Bool → Notice → List (ℕ × Notice)
send has_notifier n = if has_notifier then (0, n) ∷ [] else []

-- The state after the first listing and those of the ticks.
unfoldable pub run_polls : Config → List (Result (List Application)) → LastState → LastState
unfolding poll
run_polls cfg [] s = s
run_polls cfg (listing ∷ rest) s = run_polls cfg rest (poll cfg listing s).0

unfoldable pub run :
    Config → Result (List Application) → List (Result (List Application)) → LastState
unfolding run_polls seed_initial_state
run cfg first listings = run_polls cfg listings (seed_initial_state first [])
