-- ===== src/Entity/Preference.antt =====
-- internal/entity/notification_pref.go: per-user alert preferences and the configured alert rules.
use telekube.Base.{ℕ, String, Option, List}

pub record NotificationPreference : Type 0 where
  pub user_id : ℕ
  pub min_severity : String
  pub muted_alerts : List String
  pub muted_clusters : List String
  pub quiet_hours_start : Option String
  pub quiet_hours_end : Option String
  pub timezone : String
