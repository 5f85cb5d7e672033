-- ===== src/Notify/Preferences.antt =====
-- internal/storage/sqlite/notification_pref_repo.go: the table `notification_prefs`, with `user_id` as
-- its key. The lists go through JSON and come back as they were.
use telekube.Base.{
  ℕ, ◌≡◌, refl, arith, List, [], ◌∷◌, ◌==◌, nat_keyed, if◌then◌else◌, not, select, not_found,
  Result, ok, err,
}
use telekube.Entity.Preference.{NotificationPreference}

unfoldable pub get_pref : List NotificationPreference → ℕ → Result NotificationPreference
get_pref [] user_id = err not_found
get_pref (p ∷ rest) user_id = if p.user_id == user_id then ok p else get_pref rest user_id

-- INSERT … ON CONFLICT (user_id) DO UPDATE of every other column.
unfoldable pub put_pref :
    List NotificationPreference → NotificationPreference → List NotificationPreference
put_pref [] pref = pref ∷ []
put_pref (p ∷ rest) pref = if p.user_id == pref.user_id then pref ∷ rest else p ∷ put_pref rest pref

unfoldable pub upsert :
    List NotificationPreference → NotificationPreference → Result (List NotificationPreference)
unfolding put_pref
upsert t pref = ok (put_pref t pref)

unfoldable pub delete : List NotificationPreference → ℕ → Result (List NotificationPreference)
delete t user_id = ok (select (λ p. not (p.user_id == user_id)) t)

pub get_pref-put_pref :
    (t : List NotificationPreference) (pref : NotificationPreference) (id : ℕ)
    → get_pref (put_pref t pref) id ≡ (if pref.user_id == id then ok pref else get_pref t id)
unfolding get_pref put_pref
get_pref-put_pref [] pref id = refl
get_pref-put_pref (p ∷ rest) pref id = ground (arith, get_pref-put_pref rest pref id)
