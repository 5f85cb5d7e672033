-- ===== src/Admin/Effects.antt =====
-- What the role dialogs of internal/module/rbacmod do to the tables.
use telekube.Base.{
  ℕ, String, Bool, true, ◌≡◌, refl, ap, ◌∙◌, none, some, List, [], ◌∷◌, ◌==◌, nat_keyed,
  string_keyed, if◌then◌else◌, ok, err, result, arith, unbarred, ◌bar◌, split_two, any, select,
}
use telekube.Entity.User.{User, is_valid_role, role_viewer}
use telekube.Entity.Role.{UserRoleBinding}
use telekube.Rbac.Engine.{Engine, has_permission, set_role, assign_role}
use telekube.Rbac.Permissions.{admin_rbac_manage}
use telekube.Storage.Roles.{
  RbacDb, rbac_repo, get_user_role, role_of, set_user_role, update_role, get_user_role_bindings,
  create_role_binding,
}
use telekube.Base.Numbers.{scan_int}
use telekube.Admin.Dialogs.{
  Outcome, assigned, revoked, assign, revoke, with_target, handle_assign_confirm,
  handle_revoke_confirm,
}

role_of-update_role :
    (now : ℕ) (users : List User) (id j : ℕ) (role : String)
    → role_of (update_role now users id role) j ≡ (
        if id == j
        then elim (role_of users j) [ err e ↦ err e | ok old ↦ ok role ]
        else role_of users j)
unfolding role_of update_role
role_of-update_role now [] id j role = ground arith
role_of-update_role now (u ∷ rest) id j role = ground (
  arith,
  role_of-update_role now rest id j role,
  nat_keyed.same_iff u.telegram_id id,
  nat_keyed.same_iff u.telegram_id j,
  nat_keyed.same_iff id j,
)

any-role_of :
    (users : List User) (id : ℕ) (role : String)
    → role_of users id ≡ ok role
    → any (λ u. u.telegram_id == id) users ≡ true
unfolding role_of
any-role_of [] id role e = ground arith
any-role_of (u ∷ rest) id role e = ground (arith, any-role_of rest id role)

module _ (now : ℕ) (fk : Bool) (fresh : String) (engine : Engine) where
  -- A permitted sender's dialog about a user acts.
  with_target_acts :
      (db : RbacDb) (sender id : ℕ) (id_text role : String) (act : ℕ → String → Outcome RbacDb)
      → has_permission (rbac_repo now fk fresh) engine db sender admin_rbac_manage ≡ ok true
      → unbarred id_text ≡ true
      → scan_int id_text ≡ some id
      → with_target (rbac_repo now fk fresh) engine db sender (id_text bar role) act ≡ act id role
  unfolding with_target
  with_target_acts db sender id id_text role act allowed plain scanned =
      rw (allowed, with_target, split_two id_text role plain, scanned) refl

  create_users :
      (db : RbacDb) (b : UserRoleBinding)
      → (result db (create_role_binding fk fresh db b)).users ≡ db.users
  unfolding create_role_binding
  create_users db b = ground arith

  assign_users :
      (db : RbacDb) (b : UserRoleBinding)
      → (result db (assign_role (rbac_repo now fk fresh) db fresh b)).users ≡ db.users
  unfolding assign_role rbac_repo
  assign_users db b =
      ground (arith, create_users db (if b.id == "" then record b { id = fresh } else b))

  set_role_run :
      (db : RbacDb) (id : ℕ) (role old : String)
      → is_valid_role role ≡ true
      → get_user_role db id ≡ ok old
      → set_role (rbac_repo now fk fresh) db id role
        ≡ ok (record db { users = update_role now db.users id role })
  unfolding set_role rbac_repo set_user_role get_user_role
  set_role_run db id role old valid stored =
      rw (valid, set_role, any-role_of db.users id old stored) refl

  assign_run :
      (db : RbacDb) (id : ℕ) (role old : String)
      → is_valid_role role ≡ true
      → get_user_role db id ≡ ok old
      → ((assign (rbac_repo now fk fresh) db fresh id role).reply ≡ assigned id role)
        × ((assign (rbac_repo now fk fresh) db fresh id role).after.users
            ≡ update_role now db.users id role)
  unfolding assign
  assign_run db id role old valid stored =
      rw (set_role_run db id role old valid stored, assign)
        (
          refl,
          assign_users (record db { users = update_role now db.users id role })
              (record { id = fresh; user_id = id; role_name = role; expires_at = none }),
        )

  -- Where the sender may manage roles, the confirmed role is a built-in one and the user is stored, the
  -- assignment is answered as done, the user has the role as the flat role, and no other user's flat
  -- role changes. The text of the identifier holds no bar and reads as the user's.
  pub get_user_role-handle_assign_confirm :
      (db : RbacDb) (sender id : ℕ) (id_text role old : String)
      → has_permission (rbac_repo now fk fresh) engine db sender admin_rbac_manage ≡ ok true
      → unbarred id_text ≡ true
      → scan_int id_text ≡ some id
      → is_valid_role role ≡ true
      → get_user_role db id ≡ ok old
      → ((handle_assign_confirm
            (rbac_repo now fk fresh)
            engine
            db
            sender
            fresh
            (id_text bar role)).reply
          ≡ assigned id role)
        × ((j : ℕ)
            → get_user_role
                (handle_assign_confirm
                  (rbac_repo now fk fresh)
                  engine
                  db
                  sender
                  fresh
                  (id_text bar role)).after
                j
              ≡ (if id == j then ok role else get_user_role db j))
  unfolding handle_assign_confirm get_user_role
  get_user_role-handle_assign_confirm db sender id id_text role old allowed plain scanned valid
        stored =
      let acts =
        with_target_acts db sender id id_text role (assign (rbac_repo now fk fresh) db fresh)
          allowed plain scanned in
      let (replied, users) = assign_run db id role old valid stored in
      (
        ap (λ o. o.reply) acts ∙ replied,
        λ j.
            ap (λ o. role_of o.after.users j) acts
            ∙ ap (λ us. role_of us j) users
            ∙ ground (arith, role_of-update_role now db.users id j role, nat_keyed.same_iff id j),
      )

  revoke_reset :
      (db : RbacDb) (id : ℕ) (old : String)
      → get_user_role db id ≡ ok old
      → ((revoke (rbac_repo now fk fresh) db id "__reset__").reply ≡ revoked id "all → viewer")
        × ((revoke (rbac_repo now fk fresh) db id "__reset__").after.bindings ≡ db.bindings)
  unfolding revoke
  revoke_reset db id old stored =
      rw (set_role_run db id role_viewer old (unfold is_valid_role in refl) stored, revoke)
        (refl, refl)

  -- The reset of a stored user is answered as the revocation of all roles, and every binding of every
  -- user is left as it was.
  pub handle_revoke_confirm-bindings :
      (db : RbacDb) (sender id : ℕ) (id_text old : String)
      → has_permission (rbac_repo now fk fresh) engine db sender admin_rbac_manage ≡ ok true
      → unbarred id_text ≡ true
      → scan_int id_text ≡ some id
      → get_user_role db id ≡ ok old
      → ((handle_revoke_confirm
            (rbac_repo now fk fresh)
            engine
            db
            sender
            (id_text bar "__reset__")).reply
          ≡ revoked id "all → viewer")
        × ((j : ℕ)
            → get_user_role_bindings
                (handle_revoke_confirm
                  (rbac_repo now fk fresh)
                  engine
                  db
                  sender
                  (id_text bar "__reset__")).after
                j
              ≡ get_user_role_bindings db j)
  unfolding handle_revoke_confirm get_user_role_bindings
  handle_revoke_confirm-bindings db sender id id_text old allowed plain scanned stored =
      let acts =
        with_target_acts db sender id id_text "__reset__" (revoke (rbac_repo now fk fresh) db)
          allowed plain scanned in
      let (replied, bindings) = revoke_reset db id old stored in
      (
        ap (λ o. o.reply) acts ∙ replied,
        λ j.
            ap (λ o. ok (select (λ b. b.user_id == j) o.after.bindings)) acts
            ∙ ap (λ bs. ok (select (λ b. b.user_id == j) bs)) bindings,
      )
