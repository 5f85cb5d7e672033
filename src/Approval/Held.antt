-- ===== src/Approval/Held.antt =====
-- What a call that holds the lock of the approval manager is about to write fits the row that it replaces.
use mathlib.Core.Path.{subst}
use telekube.Base.{
  ℕ, Bool, true, false, String, ◌≡◌, refl, sym, ap, ◌∙◌, ◌≢◌, some, string_keyed, arith, Result,
  Error, ok, err,
}
use telekube.Entity.Request.{ApprovalRequest, approved}
use telekube.Storage.Approvals.{Table, get_by_id, write, expire, approval_repo}
use telekube.Storage.Approvals.Rows.{id-get_by_id}
use telekube.Approval.Manager.{Config, settle, decision_on, cancellation_of}
use telekube.Approval.Workflow.{State, Op, step}
use telekube.Approval.Soundness.{
  IsSound, settle-IsSound, expire-IsSound, cancelled-IsSound, IsNew-IsSound, voted, id-settle,
  settle_executes,
}
use telekube.Approval.Calls.{decision_on-Accepted, cancellation_of-Cancels}
use telekube.Approval.Moves.{
  RowStep, same, wrote, put_back, lapse, created, AreCopies, step-RowStep,
}

-- Every request that a read finds is sound.
pub record IsSoundTable (t : Table) : Type 0 where
  pub at_id : (id : String) (r : ApprovalRequest) → get_by_id t id ≡ ok r → IsSound r

-- What the call that holds the lock is about to write fits the row: the row is there, it is sound after
-- the `Update`, and the action runs only if the request is approved by it.
pub record Fits (t : Table) (x : Bool) (q : ApprovalRequest) : Type 0 where
  pub row : ApprovalRequest
  pub found : get_by_id t q.id ≡ ok row
  pub sound : IsSound (write q row)
  pub executes : x ≡ true → q.status ≡ approved

-- The table is sound, and so is what the calls that are under way hold.
pub record IsSoundState (s : State) : Type 0 where
  pub table : IsSoundTable s.table
  pub copies : AreCopies s
  pub held : (x : Bool) (q : ApprovalRequest) → s.held ≡ some (x, q) → Fits s.table x q

pub ok-injective : {q r : ApprovalRequest} → ok q ≡ ok r → q ≡ r
ok-injective e = cc

RowStep-IsSound :
    (s : State) (op : Op) (j : String) (b : Result ApprovalRequest)
    → IsSoundState s
    → RowStep s op j (get_by_id s.table j) b
    → (r : ApprovalRequest) → b ≡ ok r
    → IsSound r
RowStep-IsSound s op j b i (same e) r h = i.table.at_id j r (sym e ∙ h)
RowStep-IsSound s op j b i (wrote x q r held named found e) r' h =
    let fits = i.held x q held in
    let row : fits.row ≡ r = ok-injective (sym fits.found ∙ ap (get_by_id s.table) named ∙ found) in
    subst IsSound (ap (write q) row ∙ ok-injective (sym e ∙ h)) fits.sound
RowStep-IsSound s op j b i (put_back q r is found e new) r' h =
    subst IsSound (ok-injective (sym e ∙ h)) (IsNew-IsSound (write q r) new)
RowStep-IsSound s op j b i (lapse now r found e) r' h =
    subst IsSound (ok-injective (sym e ∙ h)) (expire-IsSound now r (i.table.at_id j r found))
RowStep-IsSound s op j b i (created r gone e new) r' h =
    subst IsSound (ok-injective (sym e ∙ h)) (IsNew-IsSound r new)

pub step-IsSoundTable :
    (cfg : Config) (s : State) (op : Op) → IsSoundState s → IsSoundTable (step cfg s op).1.table
step-IsSoundTable cfg s op i = record {
  at_id = λ id. RowStep-IsSound s op id _ i (step-RowStep cfg s op id i.copies);
}

write-write : (q p r : ApprovalRequest) → write q (write p r) ≡ write q r
unfolding write
write-write q p r = refl

write-expire :
    (q : ApprovalRequest) (now : ℕ) (r : ApprovalRequest) → write q (expire now r) ≡ write q r
unfolding write expire
write-expire q now r = ground arith

-- What is held still fits after a step that does not change it.
ok-ne-err : {e : Error} {r : ApprovalRequest} → (err e ≢ ok r)
ok-ne-err h = cc

pub RowStep-Fits :
    (s : State) (op : Op) (t : Table) (x : Bool) (q : ApprovalRequest)
    → RowStep s op q.id (get_by_id s.table q.id) (get_by_id t q.id)
    → Fits s.table x q
    → Fits t x q
RowStep-Fits s op t x q (same e) f = record {
  row = f.row;
  found = e ∙ f.found;
  sound = f.sound;
  executes = f.executes;
}
RowStep-Fits s op t x q (wrote y p r held named found e) f = record {
  row = write p r;
  found = e;
  sound =
      subst IsSound (sym (write-write q p r ∙ ap (write q) (ok-injective (sym found ∙ f.found))))
        f.sound;
  executes = f.executes;
}
RowStep-Fits s op t x q (put_back p r is found e new) f = record {
  row = write p r;
  found = e;
  sound =
      subst IsSound (sym (write-write q p r ∙ ap (write q) (ok-injective (sym found ∙ f.found))))
        f.sound;
  executes = f.executes;
}
RowStep-Fits s op t x q (lapse now r found e) f = record {
  row = expire now r;
  found = e;
  sound =
      subst IsSound (sym (write-expire q now r ∙ ap (write q) (ok-injective (sym found ∙ f.found))))
        f.sound;
  executes = f.executes;
}
RowStep-Fits s op t x q (created r gone e new) f = absurd (ok-ne-err (sym gone ∙ f.found))

pub Fits-decision :
    (t : Table) (now : ℕ) (id : String) (user : ℕ) (decision comment : String) (x : Bool)
    (q : ApprovalRequest)
    → IsSoundTable t
    → decision_on approval_repo t now id user decision comment ≡ ok (x, q)
    → Fits t x q
Fits-decision t now id user decision comment x q i h =
    let (r, a) = decision_on-Accepted t now id user decision comment (x, q) h in
    let v = voted now user decision comment r in
    let made : q ≡ (settle now user decision v).1 =
      ap (λ (p : Bool × ApprovalRequest). p.1) a.answer in
    record {
      row = r;
      found =
          ap (get_by_id t) (
            ap (λ (p : ApprovalRequest). p.id) made
            ∙ id-settle now user decision v
            ∙ id-get_by_id t id r a.found)
          ∙ a.found;
      sound =
          subst (λ p. IsSound (write p r)) (sym made)
            (settle-IsSound now user decision comment r (i.at_id id r a.found) a.still_pending
              a.other);
      executes = λ e.
          ap (λ (p : ApprovalRequest). p.status) made
          ∙ settle_executes now user decision v
              (sym (ap (λ (p : Bool × ApprovalRequest). p.0) a.answer) ∙ e);
    }

pub Fits-cancellation :
    (t : Table) (now : ℕ) (id : String) (user : ℕ) (q : ApprovalRequest)
    → IsSoundTable t
    → cancellation_of approval_repo t now id user ≡ ok q
    → Fits t false q
Fits-cancellation t now id user q i h =
    let (r, c) = cancellation_of-Cancels t now id user q h in
    record {
      row = r;
      found =
          ap (get_by_id t)
            (ap (λ (p : ApprovalRequest). p.id) c.answer ∙ id-get_by_id t id r c.found)
          ∙ c.found;
      sound =
          subst (λ p. IsSound (write p r)) (sym c.answer)
            (cancelled-IsSound now user r (i.at_id id r c.found));
      executes = λ e. cc;
    }
