-- ===== src/Storage/Postgres/Users.antt =====
-- internal/storage/postgres/user_repo.go: the table `users`.
use telekube.Base.{
  ℕ, List, [], ◌∷◌, ◌==◌, nat_keyed, if◌then◌else◌, leb, not_found, Result, ok, err,
}
use telekube.Entity.User.{User}

unfoldable pub get_by_telegram_id : List User → ℕ → Result User
get_by_telegram_id [] id = err not_found
get_by_telegram_id (u ∷ rest) id = if u.telegram_id == id then ok u else get_by_telegram_id rest id

-- INSERT … ON CONFLICT (telegram_id) DO UPDATE, with the user as the caller has it afterwards.
unfoldable pub upsert_row : ℕ → List User → User → List User
upsert_row kept [] user = record user { created_at = kept; updated_at = kept } ∷ []
upsert_row kept (u ∷ rest) user =
    if u.telegram_id == user.telegram_id
    then record u { username = user.username; display_name = user.display_name; updated_at = kept }
      ∷ rest
    else u ∷ upsert_row kept rest user

unfoldable pub upsert : (ℕ → ℕ) → ℕ → List User → User → Result (List User × User)
unfolding upsert_row
upsert round now t user =
    ok (upsert_row (round now) t user, record user { created_at = now; updated_at = now })

-- ORDER BY created_at DESC
unfoldable pub insert_by_age : User → List User → List User
insert_by_age u [] = u ∷ []
insert_by_age u (v ∷ rest) =
    if leb v.created_at u.created_at then u ∷ v ∷ rest else v ∷ insert_by_age u rest

unfoldable pub newest_first : List User → List User
unfolding insert_by_age
newest_first [] = []
newest_first (u ∷ rest) = insert_by_age u (newest_first rest)

unfoldable pub list : List User → Result (List User)
unfolding newest_first
list t = ok (newest_first t)
