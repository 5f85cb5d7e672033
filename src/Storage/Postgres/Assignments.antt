-- ===== src/Storage/Postgres/Assignments.antt =====
-- Which role assignments of internal/rbac the tables of internal/storage/postgres accept.
use telekube.Base.{
  ℕ, String, Bool, true, false, ◌≡◌, ◌==◌, nat_keyed, string_keyed, any, not, ◌||◌, arith, Result,
  ok, err,
}
use telekube.Entity.Role.{UserRoleBinding}
use telekube.Rbac.Engine.{assign_role}
use telekube.Storage.Roles.{RbacDb, rbac_repo as sqlite_repo, create_role_binding as sqlite_create}
use telekube.Storage.Postgres.Roles.{rbac_repo, create_role_binding}

abbrev pub succeeds : Result RbacDb → Bool
succeeds (ok db) = true
succeeds (err e) = false

-- A binding of a user to a named role, with an identifier that no binding has, is accepted by the
-- PostgreSQL tables exactly if the role is a row of the table of roles, which the built-in roles are not by
-- themselves, and by the SQLite tables if the role is such a row or the connection enforces no foreign keys.
assign_role_accepts :
    (round : ℕ → ℕ) (now : ℕ) (fk : Bool) (fresh drawn : String) (db : RbacDb) (b : UserRoleBinding)
    → (b.user_id == 0) ≡ false
    → (b.role_name == "") ≡ false
    → (b.id == "") ≡ false
    → any (λ c. c.id == b.id) db.bindings ≡ false
    → (succeeds (assign_role (rbac_repo round now fresh) db drawn b)
        ≡ any (λ r. r.name == b.role_name) db.roles)
      × (succeeds (assign_role (sqlite_repo now fk fresh) db drawn b)
          ≡ (not fk || any (λ r. r.name == b.role_name) db.roles))
unfolding assign_role rbac_repo create_role_binding sqlite_repo sqlite_create
assign_role_accepts round now fk fresh drawn db b user role id new = (ground arith, ground arith)
