-- ===== src/Storage/Postgres/Agreement.antt =====
-- The two repositories of approval requests as one map, and when they answer alike.
use telekube.Base.{
  ℕ, ◌%◌, ◌≡◌, refl, sym, ap, ◌∙◌, Option, none, some, List, [], ◌∷◌, All, ◌==◌, string_keyed,
  if◌then◌else◌, arith,
}
use std.Path.{fun_ext}
use telekube.Storage.Roles.{to_seconds}
use telekube.Storage.Approvals.{Table, approval_repo as sqlite_repo}
use telekube.Storage.Approvals.Refinement.{
  Op, creates, updates, expires, perform_all, view, Store, aged, apply, apply_all, perform_all-view,
  approval_repo-Refines, kept?, changed, resolved_as,
}
use telekube.Storage.Postgres.Approvals.{approval_repo}
use telekube.Storage.Postgres.Refinement.{approval_repo-Refines_postgres}

-- After any calls, the reads of either repository find what the map from identifiers to requests has, in
-- which the times are rounded: to seconds in SQLite, as the column type does in PostgreSQL.
pub perform_all-apply_all :
    (round : ℕ → ℕ) (ops : List Op) (t : Table)
    → (view sqlite_repo (perform_all sqlite_repo t ops)
        ≡ apply_all to_seconds (view sqlite_repo t) ops)
      × (view (approval_repo round) (perform_all (approval_repo round) t ops)
          ≡ apply_all round (view (approval_repo round) t) ops)
perform_all-apply_all round ops t = (
  perform_all-view sqlite_repo to_seconds ops t approval_repo-Refines,
  perform_all-view (approval_repo round) round ops t (approval_repo-Refines_postgres round),
)

-- The times that a call stores or compares.
abbrev pub resolved_times : Option ℕ → List ℕ
resolved_times none = []
resolved_times (some t) = t ∷ []

abbrev pub times : Op → List ℕ
times (creates req) = req.created_at ∷ req.expires_at ∷ []
times (updates req) = resolved_times req.resolved_at
times (expires now) = now ∷ []

abbrev pub IsWhole : ℕ → Type 0
IsWhole t = t % 1000000000 ≡ 0

to_seconds_whole : (t : ℕ) → IsWhole t → to_seconds t ≡ t
to_seconds_whole t whole = omega arith

module _ (round : ℕ → ℕ) (rounds : (t : ℕ) → IsWhole t → round t ≡ t) where
  same : (t : ℕ) → IsWhole t → to_seconds t ≡ round t
  same t whole = to_seconds_whole t whole ∙ sym (rounds t whole)

  kept?_same : (o : Option ℕ) → All IsWhole (resolved_times o) → kept? to_seconds o ≡ kept? round o
  kept?_same none whole = refl
  kept?_same (some t) whole = ap some (same t whole.0)

  apply_same :
      (store : Store) (op : Op)
      → All IsWhole (times op)
      → apply to_seconds store op ≡ apply round store op
  unfolding apply
  apply_same store (creates req) whole =
      fun_ext (λ id. rw (same req.created_at whole.0, same req.expires_at whole.1.0) refl)
  apply_same store (updates req) whole = fun_ext (λ id.
      ap (λ at. if req.id == id then changed (resolved_as at req) (store id) else store id)
        (kept?_same req.resolved_at whole))
  apply_same store (expires now) whole =
      fun_ext (λ id. ap (λ t. changed (aged t) (store id)) (same now whole.0))

  apply_all_same :
      (ops : List Op) (store : Store)
      → All (λ op. All IsWhole (times op)) ops
      → apply_all to_seconds store ops ≡ apply_all round store ops
  unfolding apply_all
  apply_all_same [] store whole = refl
  apply_all_same (op ∷ rest) store whole =
      apply_all_same rest (apply to_seconds store op) whole.1
      ∙ ap (λ s. apply_all round s rest) (apply_same store op whole.0)

view_same : (round : ℕ → ℕ) (t : Table) → view sqlite_repo t ≡ view (approval_repo round) t
unfolding view sqlite_repo approval_repo
view_same round t = refl

-- If the column type keeps whole seconds, and all times of the calls are whole seconds, the reads find the
-- same requests in both repositories after the same calls.
pub perform_all-agrees :
    (round : ℕ → ℕ) (ops : List Op) (t : Table)
    → ((n : ℕ) → IsWhole n → round n ≡ n)
    → All (λ op. All IsWhole (times op)) ops
    → view sqlite_repo (perform_all sqlite_repo t ops)
      ≡ view (approval_repo round) (perform_all (approval_repo round) t ops)
perform_all-agrees round ops t rounds whole =
    let refines = perform_all-apply_all round ops t in
    refines.0
    ∙ apply_all_same round rounds ops (view sqlite_repo t) whole
    ∙ ap (λ v. apply_all round v ops) (view_same round t)
    ∙ sym refines.1
