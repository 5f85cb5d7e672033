-- ===== src/Storage/Postgres/Refinement.antt =====
-- The two repositories of approval requests, internal/storage/sqlite and internal/storage/postgres, as
-- implementations of the same map.
use std.Path.{fun_ext}
use telekube.Base.{
  ℕ, String, ◌≡◌, refl, ap, ◌∙◌, [], ◌∷◌, ◌++◌, map, ◌==◌, string_keyed, if◌then◌else◌, any,
  Bool-cases, inl, inr, ok, arith, eq_iff, Result-cases,
}
use telekube.Entity.Request.{ApprovalRequest}
use telekube.Storage.Approvals.{Table, get_by_id}
use telekube.Storage.Approvals.Rows.{map_row, id-get_by_id}
use telekube.Storage.Approvals.Refinement.{
  creates, updates, expires, perform, view, updated, apply, Refines, get_by_id-insert, to_option_if,
  to_option-map_row, result_if,
}
use telekube.Storage.Postgres.Approvals.{
  inserted, create, set_columns, update, set_expired, expire_old, approval_repo,
  get_by_id as pg_get_by_id,
}

get_by_id-map :
    (f : ApprovalRequest → ApprovalRequest) (t : Table) (id : String)
    → ((r : ApprovalRequest) → (f r).id ≡ r.id)
    → get_by_id (map f t) id ≡ map_row f (get_by_id t id)
unfolding get_by_id
get_by_id-map f [] id keeps = refl
get_by_id-map f (r ∷ rest) id keeps =
    ap (λ b. if b then ok (f r) else get_by_id (map f rest) id) (ap (λ k. k == id) (keeps r))
    ∙ (elim (Bool-cases (r.id == id)) [
      | inl same ↦ rw same refl
      | inr other ↦ rw other (get_by_id-map f rest id keeps)
    ])

module _ (round : ℕ → ℕ) where
  id-set_columns : (req r : ApprovalRequest) → (set_columns round req r).id ≡ r.id
  id-set_columns req r = ground arith

  id-set_expired : (now : ℕ) (r : ApprovalRequest) → (set_expired round now r).id ≡ r.id
  id-set_expired now r = ground arith

  get_by_id-set_columns :
      (req : ApprovalRequest) (t : Table) (id : String)
      → map_row (set_columns round req) (get_by_id t id)
        ≡ (if req.id == id then map_row (updated round req) (get_by_id t id) else get_by_id t id)
  get_by_id-set_columns req t id = elim (Result-cases (get_by_id t id)) [
    | inl (r, e) ↦
        rw e (ground (arith, eq_iff r.id req.id, eq_iff req.id id, id-get_by_id t id r e))
    | inr (x, e) ↦ rw e (ground arith)
  ]

  pub approval_repo-Refines_postgres : Refines (approval_repo round) round
  unfolding Refines perform view apply approval_repo create update expire_old pg_get_by_id
  approval_repo-Refines_postgres t (creates req) = fun_ext (λ id.
      rw (result_if (any (λ r. r.id == req.id) t) t (t ++ inserted round req ∷ []) _)
        (get_by_id-insert t (inserted round req) id))
  approval_repo-Refines_postgres t (updates req) = fun_ext (λ id.
      rw
        (
          get_by_id-map (set_columns round req) t id (id-set_columns req),
          get_by_id-set_columns req t id,
        )
        (to_option_if (req.id == id) (updated round req) (get_by_id t id)))
  approval_repo-Refines_postgres t (expires now) = fun_ext (λ id.
      rw (get_by_id-map (set_expired round now) t id (id-set_expired now))
        (to_option-map_row (set_expired round now) (get_by_id t id)))
