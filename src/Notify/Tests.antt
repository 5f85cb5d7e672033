-- ===== src/Notify/Tests.antt =====
-- Preferences and alerts, and the theorems at concrete inputs.
use telekube.Base.{
  if◌then◌else◌, ◌==◌, string_keyed, any, ◌&&◌, String, false, ◌≡◌, refl, Option, some, [], ◌∷◌,
  string_keyed,
}
use telekube.Entity.Preference.{NotificationPreference}
use telekube.Notify.Filter.{
  severity_level, is_quiet, is_in_quiet_hours, should_notify, to_lower, codes_are,
}
use telekube.Notify.Handlers.{Prefs, pref_of, handle_mute_cluster_toggle}
use telekube.Notify.Laws.{unless_muted, should_notify-handle_mute_cluster_toggle}

abbrev night : NotificationPreference
night = record {
  user_id = 7;
  min_severity = "warning";
  muted_alerts = [];
  muted_clusters = "dev" ∷ [];
  quiet_hours_start = some "22:00";
  quiet_hours_end = some "08:00";
  timezone = "UTC";
}

abbrev at_midnight : String → Option String
at_midnight zone = some "00:30"

warning_is_quiet : should_notify at_midnight (some night) "warning" "prod-1" ≡ false
unfolding should_notify severity_level is_quiet is_in_quiet_hours to_lower codes_are
warning_is_quiet = refl

-- In another spelling a critical alert is not exempt from the quiet hours.
capital_is_quiet : should_notify at_midnight (some night) "CRITICAL" "prod-1" ≡ false
unfolding should_notify severity_level is_quiet is_in_quiet_hours to_lower codes_are
capital_is_quiet = refl

abbrev at_noon : String → Option String
at_noon zone = some "12:00"

abbrev prefs : Prefs
prefs = night ∷ []

abbrev dev : String
dev = "dev"

-- An alert of the cluster that was muted passes at noon, once the button is pressed.
should_notify-handle_mute_cluster_toggle_example :
    should_notify at_noon
      (some (pref_of (handle_mute_cluster_toggle prefs 7 dev).1 7))
      "warning"
      dev
    ≡ (if dev == dev
        then any (λ m. m == dev) (pref_of prefs 7).muted_clusters
          && unless_muted at_noon (pref_of prefs 7) "warning" dev
        else should_notify at_noon (some (pref_of prefs 7)) "warning" dev)
should_notify-handle_mute_cluster_toggle_example =
    should_notify-handle_mute_cluster_toggle at_noon prefs 7 dev "warning" dev
