-- ===== src/Argocd/Audited.antt =====
-- That the requests of the confirmations of internal/module/argocd to ArgoCD are in the audit log.
use Prim.Native.String.{◌++◌ as concat}
use mathlib.Core.Path.{subst}
use telekube.Base.{
  sym, Error, ℕ, String, Bool, true, false, ◌≡◌, refl, none, some, List, [], ◌∷◌, Result, ok, err,
  Result-cases, Option-cases, inl, inr, split_n,
}
use telekube.Entity.User.{User}
use telekube.Entity.Audit.{AuditEntry}
use telekube.Base.Numbers.{scan_int}
use telekube.Argocd.Services.{
  Instance, get_instance_by_name, Services, Call, sync, rollback, disable_auto_sync, Outcome,
}
use telekube.Argocd.Sync.{opts_of, run_sync, after_check, confirm_parts, handle_sync_confirm}
use telekube.Argocd.Rollback.{
  roll_back, with_revision, after_rollback_check, rollback_parts, handle_rollback_confirm,
}

-- What an entry of the log says of a request to ArgoCD.
abbrev pub Names : User → ℕ → AuditEntry → String → String → String → Type 0
Names user now e action instance_name app =
    (e.user_id ≡ user.telegram_id)
    × (e.action ≡ action)
    × (e.resource ≡ concat "app/" app)
    × (e.cluster ≡ instance_name)
    × (e.occurred_at ≡ now)

-- The entry has the outcome of a request, as the server answered it.
abbrev pub Reports : {A : Type 0} → Result A → AuditEntry → Type 0
Reports (ok r) e = (e.status ≡ "success") × (e.error ≡ none)
Reports (err x) e = (e.status ≡ "error") × (e.error ≡ some x)

-- What is sent after a rollback: a successful one switches the automatic sync off.
abbrev pub Follows : {A : Type 0} → Result A → String → String → List Call → Type 0
Follows (ok r) instance_name app calls = calls ≡ disable_auto_sync instance_name app ∷ []
Follows (err x) instance_name app calls = calls ≡ []

-- One entry for the requests, if there are any: a sync, or a rollback and what follows it.
abbrev pub Records : List Instance → User → ℕ → List Call → List AuditEntry → Type 0
Records instances user now [] audited = audited ≡ []
Records instances user now (sync instance_name app opts ∷ []) (e ∷ []) =
    Names user now e "argocd.app.sync" instance_name app
    × ((i : Instance) × (get_instance_by_name instances instance_name ≡ ok i)
        × Reports (i.client.sync_application app opts) e)
Records instances user now (rollback instance_name app revision ∷ calls) (e ∷ []) =
    Names user now e "argocd.app.rollback" instance_name app
    × ((i : Instance) × (get_instance_by_name instances instance_name ≡ ok i)
        × Reports (i.client.rollback_application app revision) e
        × Follows (i.client.rollback_application app revision) instance_name app calls)
Records instances user now _ _ = ⊥

Reports-done :
    {A : Type 0} {a : Result A} {r : A} (e : AuditEntry)
    → a ≡ ok r
    → e.status ≡ "success"
    → e.error ≡ none
    → Reports a e
Reports-done e h status error = subst (λ x. Reports x e) (sym h) (status, error)

Reports-failed :
    {A : Type 0} {a : Result A} {x : Error} (e : AuditEntry)
    → a ≡ err x
    → e.status ≡ "error"
    → e.error ≡ some x
    → Reports a e
Reports-failed e h status error = subst (λ y. Reports y e) (sym h) (status, error)

Follows-done :
    {A : Type 0} {a : Result A} {r : A} (instance_name app : String)
    → a ≡ ok r
    → Follows a instance_name app (disable_auto_sync instance_name app ∷ [])
Follows-done n app h = subst (λ x. Follows x n app (disable_auto_sync n app ∷ [])) (sym h) refl

Follows-failed :
    {A : Type 0} {a : Result A} {x : Error} (instance_name app : String)
    → a ≡ err x
    → Follows a instance_name app []
Follows-failed n app h = subst (λ y. Follows y n app []) (sym h) refl

module _ {W : Type 0} (services : Services W) (instances : List Instance) (now : ℕ) where
  abbrev IsAudited : User → Outcome W → Type 0
  IsAudited user o = Records instances user now o.calls o.audited

  run_sync-IsAudited :
      (w : W) (fresh : String) (user : User) (instance_name app mode : String)
      → IsAudited user (run_sync services instances now w fresh user instance_name app mode)
  unfolding run_sync
  run_sync-IsAudited w fresh user instance_name app mode =
      elim (Result-cases (get_instance_by_name instances instance_name)) [
        | inl (i, e) ↦ elim (Result-cases (i.client.sync_application app (opts_of mode))) [
          | inl (r, done) ↦
              rw (run_sync, e, done)
                ((refl, refl, refl, refl, refl), (i, e, Reports-done _ done refl refl))
          | inr (x, failed) ↦
              rw (run_sync, e, failed)
                ((refl, refl, refl, refl, refl), (i, e, Reports-failed _ failed refl refl))
        ]
        | inr (x, e) ↦ rw (run_sync, e) refl
      ]

  roll_back-IsAudited :
      (w : W) (fresh : String) (user : User) (instance_name app : String) (revision : ℕ)
      → IsAudited user (roll_back services instances now w fresh user instance_name app revision)
  unfolding roll_back
  roll_back-IsAudited w fresh user instance_name app revision =
      elim (Result-cases (get_instance_by_name instances instance_name)) [
        | inl (i, e) ↦ elim (Result-cases (i.client.rollback_application app revision)) [
          | inl (r, done) ↦
              rw (roll_back, e, done)
                (
                  (refl, refl, refl, refl, refl),
                  (i, e, Reports-done _ done refl refl, Follows-done instance_name app done),
                )
          | inr (x, failed) ↦
              rw (roll_back, e, failed)
                (
                  (refl, refl, refl, refl, refl),
                  (
                    i,
                    e,
                    Reports-failed _ failed refl refl,
                    Follows-failed instance_name app failed,
                  ),
                )
        ]
        | inr (x, e) ↦ rw (roll_back, e) refl
      ]

  after_check-IsAudited :
      (answer : Result (Bool × W)) (w : W) (fresh : String) (user : User)
      (payload instance_name app mode : String)
      → IsAudited user
          (after_check services instances now answer w fresh user instance_name app mode)
  unfolding after_check
  after_check-IsAudited (ok (true, w')) w fresh user payload instance_name app mode = refl
  after_check-IsAudited (ok (false, w')) w fresh user payload instance_name app mode =
      run_sync-IsAudited w' fresh user instance_name app mode
  after_check-IsAudited (err e) w fresh user payload instance_name app mode =
      run_sync-IsAudited w fresh user instance_name app mode

  with_revision-IsAudited :
      (w : W) (fresh : String) (user : User) (instance_name app rev_id : String)
      → IsAudited user (with_revision services instances now w fresh user instance_name app rev_id)
  unfolding with_revision
  with_revision-IsAudited w fresh user instance_name app rev_id =
      elim (Option-cases (scan_int rev_id)) [
        | inl unread ↦ rw (with_revision, unread) refl
        | inr (revision, read) ↦
            rw (with_revision, read) (roll_back-IsAudited w fresh user instance_name app revision)
      ]

  after_rollback_check-IsAudited :
      (answer : Result (Bool × W)) (w : W) (fresh : String) (user : User)
      (instance_name app rev_id : String)
      → IsAudited user
          (after_rollback_check services instances now answer w fresh user instance_name app rev_id)
  unfolding after_rollback_check
  after_rollback_check-IsAudited (ok (true, w')) w fresh user instance_name app rev_id = refl
  after_rollback_check-IsAudited (ok (false, w')) w fresh user instance_name app rev_id =
      with_revision-IsAudited w' fresh user instance_name app rev_id
  after_rollback_check-IsAudited (err e) w fresh user instance_name app rev_id =
      with_revision-IsAudited w fresh user instance_name app rev_id

  confirm_parts-IsAudited :
      (w : W) (fresh : String) (user : User) (payload : String) (parts : List String)
      → IsAudited user (confirm_parts services instances now w fresh user payload parts)
  unfolding confirm_parts
  confirm_parts-IsAudited w fresh user payload [] = refl
  confirm_parts-IsAudited w fresh user payload (a ∷ []) = refl
  confirm_parts-IsAudited w fresh user payload (a ∷ b ∷ []) = refl
  confirm_parts-IsAudited w fresh user payload (a ∷ b ∷ c ∷ []) =
      after_check-IsAudited _ w fresh user payload a b c
  confirm_parts-IsAudited w fresh user payload (a ∷ b ∷ c ∷ d ∷ rest) = refl

  rollback_parts-IsAudited :
      (w : W) (fresh : String) (user : User) (payload : String) (parts : List String)
      → IsAudited user (rollback_parts services instances now w fresh user payload parts)
  unfolding rollback_parts
  rollback_parts-IsAudited w fresh user payload [] = refl
  rollback_parts-IsAudited w fresh user payload (a ∷ []) = refl
  rollback_parts-IsAudited w fresh user payload (a ∷ b ∷ []) = refl
  rollback_parts-IsAudited w fresh user payload (a ∷ b ∷ c ∷ []) =
      after_rollback_check-IsAudited _ w fresh user a b c
  rollback_parts-IsAudited w fresh user payload (a ∷ b ∷ c ∷ d ∷ rest) = refl

  -- Whatever the payload, the approval check and ArgoCD answer, the confirmations of a sync and of a
  -- rollback write one audit entry when they send requests to ArgoCD and none else. The entry has the
  -- user, the time, the instance and the application of the request; its status and error are those of
  -- the answer of this instance to the request, and after a rollback the automatic sync of the
  -- application is switched off if ArgoCD took it, and only then.
  pub handle_confirm-IsAudited :
      (w : W) (fresh : String) (user : User) (payload : String)
      → IsAudited user (handle_sync_confirm services instances now w fresh (some user) payload)
        × IsAudited user
            (handle_rollback_confirm services instances now w fresh (some user) payload)
  unfolding handle_sync_confirm handle_rollback_confirm
  handle_confirm-IsAudited w fresh user payload = (
    confirm_parts-IsAudited w fresh user payload (split_n 3 payload),
    rollback_parts-IsAudited w fresh user payload (split_n 3 payload),
  )
