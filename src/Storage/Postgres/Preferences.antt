-- ===== src/Storage/Postgres/Preferences.antt =====
-- internal/storage/postgres/notification_pref_repo.go: the table `notification_prefs`.
use telekube.Base.{
  ℕ, List, [], ◌∷◌, ◌==◌, nat_keyed, if◌then◌else◌, not, select, not_found, Result, ok, err,
}
use telekube.Entity.Preference.{NotificationPreference}

unfoldable pub get : List NotificationPreference → ℕ → Result NotificationPreference
get [] user_id = err not_found
get (p ∷ rest) user_id = if p.user_id == user_id then ok p else get rest user_id

-- INSERT … ON CONFLICT (user_id) DO UPDATE of every other column.
unfoldable pub put_row :
    List NotificationPreference → NotificationPreference → List NotificationPreference
put_row [] pref = pref ∷ []
put_row (p ∷ rest) pref = if p.user_id == pref.user_id then pref ∷ rest else p ∷ put_row rest pref

unfoldable pub upsert :
    List NotificationPreference → NotificationPreference → Result (List NotificationPreference)
unfolding put_row
upsert t pref = ok (put_row t pref)

unfoldable pub delete : List NotificationPreference → ℕ → Result (List NotificationPreference)
delete t user_id = ok (select (λ p. not (p.user_id == user_id)) t)
