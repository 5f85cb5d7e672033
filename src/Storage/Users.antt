-- ===== src/Storage/Users.antt =====
-- internal/storage/sqlite/user_repo.go: the table `users`, with `telegram_id` as its key.
use telekube.Base.{ℕ, List, [], ◌∷◌, ◌==◌, nat_keyed, if◌then◌else◌, not_found, Result, ok, err}
use telekube.Entity.User.{User}

unfoldable pub get_by_telegram_id : List User → ℕ → Result User
get_by_telegram_id [] id = err not_found
get_by_telegram_id (u ∷ rest) id = if u.telegram_id == id then ok u else get_by_telegram_id rest id

-- INSERT … ON CONFLICT(telegram_id) DO UPDATE: a known user keeps the role, the flag and the creation
-- time of the row.
unfoldable pub upsert : ℕ → List User → User → List User
upsert now [] user = record user { created_at = now; updated_at = now } ∷ []
upsert now (u ∷ rest) user =
    if u.telegram_id == user.telegram_id
    then record u { username = user.username; display_name = user.display_name; updated_at = now }
      ∷ rest
    else u ∷ upsert now rest user
