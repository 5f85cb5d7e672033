-- ===== src/Argocd/Gate/Unguarded.antt =====
-- What the confirmation of a sync in internal/module/argocd/sync.go does not look at.
use telekube.Base.{
  ℕ, String, Bool, true, false, ◌≡◌, refl, Option, none, some, List, [], ◌∷◌, Result, ok, err,
  arith, split_n, string_keyed,
}
use telekube.Entity.User.{User}
use telekube.Entity.Freeze.{DeploymentFreeze}
use telekube.Approval.Manager.{Config}
use telekube.Rbac.Engine.{Engine}
use telekube.Storage.Approvals.{Table}
use telekube.Argocd.Services.{Instance, Outcome}
use telekube.Argocd.Sync.{run_sync, after_check, confirm_parts, handle_sync_confirm}
use telekube.Argocd.Gate.{World, put_approvals, services}

-- Two handler runs that show and do the same.
abbrev pub SameReply : Outcome World → Outcome World → Type 0
SameReply o p = (o.reply ≡ p.reply) × (o.calls ≡ p.calls)

module _ (engine : Engine) (cfg : Config) (now : ℕ) (fresh : String) (sent : Option ℕ) (chat_id : ℕ)
    (instances : List Instance) where
  after_check_same :
      (r : Result (Bool × Table)) (w v : World) (id : String) (user : User) (name app mode : String)
      → SameReply
          (after_check
            (services engine cfg now fresh sent chat_id)
            instances
            now
            (put_approvals w r)
            w
            id
            user
            name
            app
            mode)
          (after_check
            (services engine cfg now fresh sent chat_id)
            instances
            now
            (put_approvals v r)
            v
            id
            user
            name
            app
            mode)
  unfolding after_check run_sync
  after_check_same (ok (true, t)) w v id user name app mode = (refl, refl)
  after_check_same (ok (false, t)) w v id user name app mode = (ground arith, ground arith)
  after_check_same (err e) w v id user name app mode = (ground arith, ground arith)

  confirm_parts_same :
      (w : World) (fs : List DeploymentFreeze) (id : String) (user : User) (payload : String)
      (parts : List String)
      → SameReply
          (confirm_parts
            (services engine cfg now fresh sent chat_id)
            instances
            now
            w
            id
            user
            payload
            parts)
          (confirm_parts
            (services engine cfg now fresh sent chat_id)
            instances
            now
            (record w { freezes = fs })
            id
            user
            payload
            parts)
  unfolding confirm_parts services
  confirm_parts_same w fs id user payload [] = (refl, refl)
  confirm_parts_same w fs id user payload (a ∷ []) = (refl, refl)
  confirm_parts_same w fs id user payload (a ∷ b ∷ []) = (refl, refl)
  confirm_parts_same w fs id user payload (name ∷ app ∷ mode ∷ []) =
      after_check_same _ w (record w { freezes = fs }) id user name app mode
  confirm_parts_same w fs id user payload (a ∷ b ∷ c ∷ d ∷ rest) = (refl, refl)

  -- The confirmation of a sync does the same whatever freezes are stored: its reply and its requests
  -- to ArgoCD are those under any other table of freezes.
  pub handle_sync_confirm_unguarded :
      (w : World) (fs : List DeploymentFreeze) (id : String) (user : Option User) (payload : String)
      → SameReply
          (handle_sync_confirm
            (services engine cfg now fresh sent chat_id)
            instances
            now
            w
            id
            user
            payload)
          (handle_sync_confirm
            (services engine cfg now fresh sent chat_id)
            instances
            now
            (record w { freezes = fs })
            id
            user
            payload)
  unfolding handle_sync_confirm
  handle_sync_confirm_unguarded w fs id none payload = (refl, refl)
  handle_sync_confirm_unguarded w fs id (some user) payload =
      confirm_parts_same w fs id user payload (split_n 3 payload)
