-- ===== src/Storage/Postgres/Freezes.antt =====
-- internal/storage/postgres/freeze_repo.go: the table `deployment_freezes`.
use telekube.Base.{
  ℕ, zero, String, Bool, ◌&&◌, ◌||◌, Option, none, some, List, [], ◌∷◌, ◌++◌, map, ◌==◌,
  string_keyed, if◌then◌else◌, ltb, true, false, any, take, errorf, message, Result, ok, err,
}
use telekube.Entity.Freeze.{DeploymentFreeze}
use telekube.Storage.Freezes.{newest, newest_first}

module _ (round : ℕ → ℕ) where
  -- The row of a new freeze.
  abbrev pub inserted : DeploymentFreeze → DeploymentFreeze
  inserted f = record f {
    created_at = round f.created_at;
    expires_at = round f.expires_at;
    thawed_at = none;
    thawed_by = none;
  }

  unfoldable pub create : List DeploymentFreeze → DeploymentFreeze → Result (List DeploymentFreeze)
  create t f =
      if any (λ r. r.id == f.id) t
      then err
          (message "inserting deployment freeze: duplicate key value violates unique constraint")
      else ok (t ++ inserted f ∷ [])

  -- WHERE thawed_at IS NULL AND expires_at > $1
  abbrev pub is_live : ℕ → DeploymentFreeze → Bool
  is_live now f =
      (elim f.thawed_at [ none ↦ true | some t ↦ false ]) && ltb (round now) f.expires_at

  unfoldable pub get_active : List DeploymentFreeze → ℕ → Result (Option DeploymentFreeze)
  unfolding newest
  get_active t now = ok (newest (is_live now) t)

  unfoldable pub get_active_for_cluster :
      List DeploymentFreeze → ℕ → String → Result (Option DeploymentFreeze)
  unfolding newest
  get_active_for_cluster t now cluster =
      ok (newest (λ f. is_live now f && (f.scope == "all" || f.scope == cluster)) t)

  -- SET thawed_at = $1, thawed_by = $2 WHERE id = $3
  abbrev pub set_thawed : ℕ → String → ℕ → DeploymentFreeze → DeploymentFreeze
  set_thawed now id by f =
      if f.id == id then record f { thawed_at = some (round now); thawed_by = some by } else f

  unfoldable pub thaw : List DeploymentFreeze → ℕ → String → ℕ → Result (List DeploymentFreeze)
  thaw t now id by =
      if any (λ f. f.id == id) t
      then ok (map (set_thawed now id by) t)
      else err (errorf "freeze %s not found" (id ∷ []))

-- ORDER BY created_at DESC LIMIT $1. A limit of at most 0 is 0 here.
unfoldable pub list : List DeploymentFreeze → ℕ → Result (List DeploymentFreeze)
unfolding newest_first
list t zero = ok (take 20 (newest_first t))
list t limit = ok (take limit (newest_first t))
