-- ===== src/Argocd/Gate.antt =====
-- What the freeze check of internal/module/argocd stops, over the SQLite tables.
pub mod Unguarded
use telekube.Base.{
  ℕ, ◌<◌, ◌+◌, String, Bool, true, false, ◌≡◌, inl, inr, refl, ◌∙◌, Option, Option-cases, none,
  some, List, [], ◌∷◌, ◌++◌, any, any-append, Result, ok, err, arith, unbarred, ◌bar◌, split_n,
  ◌==◌, string_keyed, split_two,
}
use telekube.Entity.User.{User}
use telekube.Entity.Freeze.{DeploymentFreeze, is_active}
use telekube.Approval.Manager.{Config, check_and_submit}
use telekube.Rbac.Engine.{Engine, has_permission}
use telekube.Rbac.Permissions.{argo_cd_apps_sync}
use telekube.Storage.Roles.{RbacDb, rbac_repo}
use telekube.Storage.Approvals.{Table, approval_repo}
use telekube.Storage.Freezes.{
  get_active, get_active_for_cluster, create, inserted, thaw, newest, covers,
}
use telekube.Storage.Freezes.Blocking.{newest-none, newest-passes}
use telekube.Argocd.Services.{Instance, Services, Reply, frozen, Outcome}
use telekube.Argocd.Sync.{
  preview, unless_frozen, handle_sync, run_sync, after_check, confirm_parts, handle_sync_confirm,
}
use telekube.Argocd.Freezing.{new_freeze, handle_freeze_confirm}

-- The tables that the module reads and writes.
pub record World : Type 0 where
  pub db : RbacDb
  pub approvals : Table
  pub freezes : List DeploymentFreeze

-- `fresh`, `sent` and `chat_id` go to the approval checker, which nobody interrupts here.
abbrev pub put_freezes : World → Result (List DeploymentFreeze) → Result World
put_freezes w (ok fs) = ok (record w { freezes = fs })
put_freezes w (err e) = err e

abbrev pub put_approvals : World → Result (Bool × Table) → Result (Bool × World)
put_approvals w (ok (b, t)) = ok (b, record w { approvals = t })
put_approvals w (err e) = err e

unfoldable pub services : Engine → Config → ℕ → String → Option ℕ → ℕ → Services World
services engine cfg now fresh sent chat_id = record {
  has_permission = λ w id p. has_permission (rbac_repo now true fresh) engine w.db id p;
  get_active = λ w. get_active w.freezes now;
  get_active_for_cluster = λ w c. get_active_for_cluster w.freezes now c;
  create_freeze = λ w f. put_freezes w (create w.freezes f);
  thaw = λ w id by. put_freezes w (thaw w.freezes now id by);
  check_and_submit = λ w input.
      put_approvals w
        (check_and_submit approval_repo cfg (λ t. t) w.approvals now fresh sent chat_id input);
}

module _ (engine : Engine) (cfg : Config) (now : ℕ) (fresh : String) (sent : Option ℕ) (chat_id : ℕ)
    (instances : List Instance) where
  covers-is_active :
      (c : String) (f : DeploymentFreeze) → covers now c f ≡ true → is_active now f ≡ true
  unfolding covers
  covers-is_active c f h = ground arith

  unless_frozen_blocked :
      (w : World) (name : String) (reply : Reply)
      → any (covers now name) w.freezes ≡ true
      → (f : DeploymentFreeze) × (covers now name f ≡ true)
        × (unless_frozen (services engine cfg now fresh sent chat_id) instances now w name reply
            ≡ frozen f)
  unfolding unless_frozen services get_active_for_cluster
  unless_frozen_blocked w name reply h = elim (Option-cases (newest (covers now name) w.freezes)) [
    | inl gone ↦ ground (arith, (newest-none (covers now name) w.freezes).0 gone)
    | inr (f, found) ↦
        let passes = newest-passes (covers now name) w.freezes f found in
        (f, passes, ground (arith, covers-is_active name f passes))
  ]

  unless_frozen_free :
      (w : World) (name : String) (reply : Reply)
      → any (covers now name) w.freezes ≡ false
      → unless_frozen (services engine cfg now fresh sent chat_id) instances now w name reply
        ≡ reply
  unfolding unless_frozen services get_active_for_cluster
  unless_frozen_free w name reply h = ground (arith, (newest-none (covers now name) w.freezes).1 h)

  handle_sync_allowed :
      (w : World) (user : User) (name app : String)
      → unbarred name ≡ true
      → has_permission (rbac_repo now true fresh) engine w.db user.telegram_id argo_cd_apps_sync
        ≡ ok true
      → handle_sync
          (services engine cfg now fresh sent chat_id)
          instances
          now
          w
          (some user)
          (name bar app)
        ≡ unless_frozen
            (services engine cfg now fresh sent chat_id)
            instances
            now
            w
            name
            (preview instances name app)
  unfolding handle_sync services
  handle_sync_allowed w user name app plain allowed = ground (arith, split_two name app plain)

  -- For a user with the permission, the sync button of the application `app` on the instance `name`
  -- answers with a freeze if some active freeze has the scope "all" or the instance's name, and
  -- opens the sync options if none has. No bar is in the instance's name.
  pub handle_sync-unless_frozen :
      (w : World) (user : User) (name app : String)
      → unbarred name ≡ true
      → has_permission (rbac_repo now true fresh) engine w.db user.telegram_id argo_cd_apps_sync
        ≡ ok true
      → (any (covers now name) w.freezes ≡ true
          → (f : DeploymentFreeze) × (covers now name f ≡ true)
            × (handle_sync
                  (services engine cfg now fresh sent chat_id)
                  instances
                  now
                  w
                  (some user)
                  (name bar app)
                ≡ frozen f))
        × (any (covers now name) w.freezes ≡ false
            → handle_sync
                (services engine cfg now fresh sent chat_id)
                instances
                now
                w
                (some user)
                (name bar app)
              ≡ preview instances name app)
  handle_sync-unless_frozen w user name app plain allowed =
      let opens = handle_sync_allowed w user name app plain allowed in
      (
        λ h.
            let (f, passes, e) = unless_frozen_blocked w name (preview instances name app) h in
            (f, passes, opens ∙ e),
        λ h. opens ∙ unless_frozen_free w name (preview instances name app) h,
      )

  covers-new_freeze :
      (id name : String) (user : User) (created d : ℕ)
      → now < created + d
      → covers now name (inserted (new_freeze id "all" user created d)) ≡ true
  unfolding covers is_active new_freeze
  covers-new_freeze id name user created d h = ground arith

  append_covers :
      (t : List DeploymentFreeze) (f : DeploymentFreeze) (name : String)
      → covers now name f ≡ true
      → any (covers now name) (t ++ f ∷ []) ≡ true
  append_covers t f name h = ground (arith, any-append (covers now name) t (f ∷ []))

  confirm_stores :
      (w : World) (creator : User) (created d : ℕ) (id entry duration : String)
      → any (λ f. f.id == id) w.freezes ≡ false
      → (handle_freeze_confirm
          (services engine cfg created fresh sent chat_id)
          created
          w
          id
          entry
          (some creator)
          ("all" bar duration)
          (ok d)).after
        ≡ record w { freezes = w.freezes ++ inserted (new_freeze id "all" creator created d) ∷ [] }
  unfolding handle_freeze_confirm services create
  confirm_stores w creator created d id entry duration new =
      ground (arith, split_two "all" duration refl)

  -- Once a user has confirmed a freeze of all clusters, the sync button of every instance answers
  -- with a freeze to a user who may sync, until the chosen duration is over. The freeze's identifier
  -- is a new one, and no bar is in the instance's name.
  pub handle_sync-handle_freeze_confirm :
      (w : World) (creator user : User) (created d : ℕ) (id entry duration name app : String)
      → any (λ f. f.id == id) w.freezes ≡ false
      → now < created + d
      → unbarred name ≡ true
      → has_permission (rbac_repo now true fresh) engine w.db user.telegram_id argo_cd_apps_sync
        ≡ ok true
      → (f : DeploymentFreeze) × (handle_sync
            (services engine cfg now fresh sent chat_id)
            instances
            now
            (handle_freeze_confirm
              (services engine cfg created fresh sent chat_id)
              created
              w
              id
              entry
              (some creator)
              ("all" bar duration)
              (ok d)).after
            (some user)
            (name bar app)
          ≡ frozen f)
  handle_sync-handle_freeze_confirm w creator user created d id entry duration name app new h plain
        allowed =
      let made = inserted (new_freeze id "all" creator created d) in
      let w' : World = record w { freezes = w.freezes ++ made ∷ [] } in
      let (f, passes, e) =
        (handle_sync-unless_frozen w' user name app plain allowed).0
          (append_covers w.freezes made name (covers-new_freeze id name creator created d h)) in
      (f, rw (confirm_stores w creator created d id entry duration new) e)
