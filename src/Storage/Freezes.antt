-- ===== src/Storage/Freezes.antt =====
-- internal/storage/sqlite/freeze_repo.go: the table `deployment_freezes`. Its times are UTC texts
-- that compare as the times do.
pub mod Blocking
use telekube.Base.{
  ℕ, zero, ◌∷◌, String, Bool, ◌&&◌, ◌||◌, Option, none, some, List, [], ◌++◌, ◌==◌, string_keyed,
  if◌then◌else◌, leb, any, take, errorf, message, Result, ok, err,
}
use telekube.Entity.Freeze.{DeploymentFreeze, is_active}

-- The row of a new freeze.
abbrev pub inserted : DeploymentFreeze → DeploymentFreeze
inserted f = record f { thawed_at = none; thawed_by = none }

unfoldable pub create : List DeploymentFreeze → DeploymentFreeze → Result (List DeploymentFreeze)
create t f =
    if any (λ r. r.id == f.id) t
    then err
        (message "inserting deployment freeze: UNIQUE constraint failed: deployment_freezes.id")
    else ok (t ++ inserted f ∷ [])

-- ORDER BY created_at DESC LIMIT 1, over the rows that pass the test. Of two rows of the same time
-- the earlier row of the table is taken, which the statement leaves open.
unfoldable pub newest : (DeploymentFreeze → Bool) → List DeploymentFreeze → Option DeploymentFreeze
newest p [] = none
newest p (f ∷ rest) =
    let later = newest p rest in
    if p f
    then elim later [
      | none ↦ some f
      | some g ↦ if leb g.created_at f.created_at then some f else some g
    ]
    else later

unfoldable pub get_active : List DeploymentFreeze → ℕ → Result (Option DeploymentFreeze)
unfolding newest is_active
get_active t now = ok (newest (is_active now) t)

-- The condition of `GetActiveForCluster`.
unfoldable pub covers : ℕ → String → DeploymentFreeze → Bool
unfolding is_active
covers now cluster f = is_active now f && (f.scope == "all" || f.scope == cluster)

unfoldable pub get_active_for_cluster :
    List DeploymentFreeze → ℕ → String → Result (Option DeploymentFreeze)
unfolding newest covers
get_active_for_cluster t now cluster = ok (newest (covers now cluster) t)

-- UPDATE … SET thawed_at = ?, thawed_by = ? WHERE id = ?
unfoldable pub thaw_rows : List DeploymentFreeze → ℕ → String → ℕ → List DeploymentFreeze
thaw_rows [] now id by = []
thaw_rows (f ∷ rest) now id by =
    (if f.id == id then record f { thawed_at = some now; thawed_by = some by } else f)
    ∷ thaw_rows rest now id by

unfoldable pub thaw : List DeploymentFreeze → ℕ → String → ℕ → Result (List DeploymentFreeze)
unfolding thaw_rows
thaw t now id by =
    if any (λ f. f.id == id) t
    then ok (thaw_rows t now id by)
    else err (errorf "freeze %s not found" (id ∷ []))

-- ORDER BY created_at DESC
unfoldable pub insert_by_age : DeploymentFreeze → List DeploymentFreeze → List DeploymentFreeze
insert_by_age f [] = f ∷ []
insert_by_age f (g ∷ rest) =
    if leb g.created_at f.created_at then f ∷ g ∷ rest else g ∷ insert_by_age f rest

unfoldable pub newest_first : List DeploymentFreeze → List DeploymentFreeze
unfolding insert_by_age
newest_first [] = []
newest_first (f ∷ rest) = insert_by_age f (newest_first rest)

-- A limit of at most 0 is 0 here.
unfoldable pub list : List DeploymentFreeze → ℕ → Result (List DeploymentFreeze)
unfolding newest_first
list t zero = ok (take 20 (newest_first t))
list t limit = ok (take limit (newest_first t))
