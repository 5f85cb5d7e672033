-- ===== src/Notify/Handlers.antt =====
-- internal/module/notify/module.go: the handlers that change a user's preferences. Each reads the
-- stored preferences, or the default ones if the read fails, and stores the changed ones.
use telekube.Base.{
  ℕ, String, not, none, some, List, [], ◌∷◌, ◌++◌, ◌==◌, string_keyed, if◌then◌else◌, any, select,
  ok, err, result, split_n,
}
use telekube.Entity.Preference.{NotificationPreference}
use telekube.Notify.Preferences.{get_pref, upsert}

-- What the user is shown: the menu of the preferences, or why not.
pub data Reply : Type 0 where
  menu : NotificationPreference → Reply
  invalid_selection : Reply
  save_failed : Reply

unfoldable pub default_pref : ℕ → NotificationPreference
default_pref user_id = record {
  user_id = user_id;
  min_severity = "info";
  muted_alerts = [];
  muted_clusters = [];
  quiet_hours_start = none;
  quiet_hours_end = none;
  timezone = "UTC";
}

abbrev pub Prefs : Type 0
Prefs = List NotificationPreference

-- `m.store.Get`, with the default if it fails.
unfoldable pub pref_of : Prefs → ℕ → NotificationPreference
unfolding default_pref get_pref
pref_of t user_id = result (default_pref user_id) (get_pref t user_id)

-- `m.store.Upsert` and the menu.
unfoldable pub save : Prefs → NotificationPreference → Reply × Prefs
unfolding upsert
save t pref = elim (upsert t pref) [ err e ↦ (save_failed, t) | ok t' ↦ (menu pref, t') ]

unfoldable pub handle_notify : Prefs → ℕ → Reply
unfolding pref_of
handle_notify t user_id = menu (pref_of t user_id)

unfoldable pub handle_severity_confirm : Prefs → ℕ → String → Reply × Prefs
unfolding pref_of save
handle_severity_confirm t user_id severity =
    save t (record (pref_of t user_id) { min_severity = severity })

unfoldable pub handle_quiet_hours_confirm : Prefs → ℕ → String → Reply × Prefs
unfolding pref_of save
handle_quiet_hours_confirm t user_id payload = elim (split_n 2 payload) [
  | start ∷ stop ∷ [] ↦
      save t
        (record (pref_of t user_id) { quiet_hours_start = some start; quiet_hours_end = some stop })
  | _ ↦ (invalid_selection, t)
]

unfoldable pub handle_quiet_hours_clear : Prefs → ℕ → Reply × Prefs
unfolding pref_of save
handle_quiet_hours_clear t user_id =
    save t (record (pref_of t user_id) { quiet_hours_start = none; quiet_hours_end = none })

-- The loop of the toggle: unmutes if the cluster is in the list, and mutes it otherwise.
unfoldable pub toggle : List String → String → List String
toggle muted cluster =
    let kept = select (λ c. not (c == cluster)) muted in
    if any (λ c. c == cluster) muted then kept else kept ++ cluster ∷ []

unfoldable pub handle_mute_cluster_toggle : Prefs → ℕ → String → Reply × Prefs
unfolding pref_of save toggle
handle_mute_cluster_toggle t user_id cluster =
    let pref = pref_of t user_id in
    save t (record pref { muted_clusters = toggle pref.muted_clusters cluster })
