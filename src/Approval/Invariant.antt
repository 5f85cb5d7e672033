-- ===== src/Approval/Invariant.antt =====
-- What a step of the approval workflow keeps: the table is sound, and so is what the calls under way hold.
use mathlib.Core.Path.{subst, subst₂}
use telekube.Base.{
  ℕ, Bool, false, String, ◌≡◌, refl, sym, ap, ◌∙◌, ◌≢◌, Option, none, some, ◌==◌, string_keyed,
  arith, ok, get, put, without, get-put, get-without, if◌then◌else◌, Option-cases, Result-cases,
  Bool-cases, inl, inr, eq_iff,
}
use telekube.Entity.Request.{ApprovalRequest, pending}
use telekube.Storage.Approvals.{get_by_id, update_rows, approval_repo}
use telekube.Storage.Approvals.Rows.{id-get_by_id}
use telekube.Approval.Manager.{
  Config, ApprovalInput, Rule, submit_if_required, decision_on, cancellation_of, new_request,
}
use telekube.Approval.Workflow.{State, Op, submits, attaches, decides, cancels, writes, ticks, step}
use telekube.Approval.Soundness.{id-settle}
use telekube.Approval.Calls.{
  decision_on-Accepted, cancellation_of-Cancels, submit_if_required-cases, filled,
}
use telekube.Approval.Moves.{RowStep, IsCopy, AreCopies, step-RowStep}
use telekube.Approval.Held.{
  IsSoundTable, Fits, IsSoundState, step-IsSoundTable, RowStep-Fits, Fits-decision,
  Fits-cancellation,
}

-- What a step does to the lock, and which action it lets through.
pub data LockStep (s : State) (o : Option String) (s' : State) : Type 0 where
  keeps : o ≡ none → s'.held ≡ s.held → LockStep s o s'
  takes :
      (x : Bool) (q r : ApprovalRequest)
      → o ≡ none
      → s'.held ≡ some (x, q)
      → s'.table ≡ s.table
      → get_by_id s.table q.id ≡ ok r
      → r.status ≡ pending
      → Fits s.table x q
      → LockStep s o s'
  frees :
      (x : Bool) (q : ApprovalRequest)
      → s.held ≡ some (x, q)
      → s'.held ≡ none
      → s'.table ≡ update_rows s.table q
      → o ≡ (if x then some q.id else none)
      → LockStep s o s'

pub step-LockStep :
    (cfg : Config) (s : State) (op : Op)
    → IsSoundTable s.table
    → LockStep s (step cfg s op).0 (step cfg s op).1
unfolding step
step-LockStep cfg s (submits now fresh input) i =
    elim (Result-cases (submit_if_required approval_repo cfg s.table now fresh input)) [
      | inl ((none, t), e) ↦ keeps (ground arith) (ground arith)
      | inl ((some req, t), e) ↦ keeps (ground arith) (ground arith)
      | inr (x, e) ↦ keeps (ground arith) (ground arith)
    ]
step-LockStep cfg s (attaches id sent chat) i = elim (Option-cases (get s.sending id)) [
  | inl none_there ↦ keeps (ground arith) (ground arith)
  | inr (req, there) ↦ keeps (ground arith) (ground arith)
]
step-LockStep cfg s (decides now id user decision comment) i = elim (Option-cases s.held) [
  | inl free ↦
      elim (Result-cases (decision_on approval_repo s.table now id user decision comment)) [
        | inl ((x, q), e) ↦
            let (r, a) = decision_on-Accepted s.table now id user decision comment (x, q) e in
            let fits = Fits-decision s.table now id user decision comment x q i e in
            takes x q r (ground arith) (ground arith) (ground arith)
              (ap (get_by_id s.table) (
                  ap (λ (p : Bool × ApprovalRequest). p.1.id) a.answer
                  ∙ id-settle now user decision _
                  ∙ id-get_by_id s.table id r a.found)
                ∙ a.found)
              a.still_pending fits
        | inr (x, e) ↦ keeps (ground arith) (ground arith)
      ]
  | inr (q, taken) ↦ keeps (ground arith) (ground arith)
]
step-LockStep cfg s (cancels now id user) i = elim (Option-cases s.held) [
  | inl free ↦ elim (Result-cases (cancellation_of approval_repo s.table now id user)) [
    | inl (q, e) ↦
        let (r, c) = cancellation_of-Cancels s.table now id user q e in
        let fits = Fits-cancellation s.table now id user q i e in
        takes false q r (ground arith) (ground arith) (ground arith)
          (ap (get_by_id s.table)
              (ap (λ (p : ApprovalRequest). p.id) c.answer ∙ id-get_by_id s.table id r c.found)
            ∙ c.found)
          c.still_pending fits
    | inr (x, e) ↦ keeps (ground arith) (ground arith)
  ]
  | inr (q, taken) ↦ keeps (ground arith) (ground arith)
]
step-LockStep cfg s writes i = elim (Option-cases s.held) [
  | inl free ↦ keeps (ground arith) (ground arith)
  | inr ((x, q), held) ↦
      unfold approval_repo in frees x q held (ground arith) (ground arith) (ground arith)
]
step-LockStep cfg s (ticks now) i = keeps refl refl

some-injective : {q r : ApprovalRequest} → some q ≡ some r → q ≡ r
some-injective e = cc

none-ne-some : {r : ApprovalRequest} → none ≢ some r
none-ne-some e = cc

held-injective : {q r : Bool × ApprovalRequest} → some q ≡ some r → q ≡ r
held-injective e = cc

none-ne-held : {r : Bool × ApprovalRequest} → none ≢ some r
none-ne-held e = cc

copies-put :
    (s : State) (req : ApprovalRequest)
    → AreCopies s
    → IsCopy req.id req
    → (id : String) (q : ApprovalRequest) → get (put s.sending req.id req) id ≡ some q
    → IsCopy id q
copies-put s req copies c id q h = elim (Bool-cases (req.id == id)) [
  | inl hit ↦
      let e : some req ≡ some q = (rw (hit) refl) ∙ sym (get-put s.sending req.id id req) ∙ h in
      subst₂ IsCopy ((eq_iff req.id id).0 hit) (some-injective e) c
  | inr miss ↦ copies id q (sym (get-put s.sending req.id id req ∙ (rw miss refl)) ∙ h)
]

copies-without :
    (s : State) (j : String)
    → AreCopies s
    → (id : String) (q : ApprovalRequest) → get (without s.sending j) id ≡ some q
    → IsCopy id q
copies-without s j copies id q h = elim (Bool-cases (j == id)) [
  | inl hit ↦ absurd (none-ne-some (sym (get-without s.sending j id ∙ (rw hit refl)) ∙ h))
  | inr miss ↦ copies id q (sym (get-without s.sending j id ∙ (rw miss refl)) ∙ h)
]

filled-IsCopy :
    (cfg : Config) (now : ℕ) (fresh : String) (rule : Rule) (input : ApprovalInput)
    (req : ApprovalRequest)
    → req ≡ filled cfg now fresh rule input
    → IsCopy req.id req
unfolding new_request
filled-IsCopy cfg now fresh rule input req e =
    rw e (record { named = refl; is_pending = refl; no_votes = refl; unresolved = refl })

step-AreCopies : (cfg : Config) (s : State) (op : Op) → AreCopies s → AreCopies (step cfg s op).1
unfolding step
step-AreCopies cfg s (submits now fresh input) copies =
    elim (Result-cases (submit_if_required approval_repo cfg s.table now fresh input)) [
      | inl ((none, t), e) ↦ rw (step, e) copies
      | inl ((some req, t), e) ↦
          elim (submit_if_required-cases cfg s.table now fresh input (some req) t e) [
            | inl (nothing, _) ↦ absurd (none-ne-some (sym nothing))
            | inr (rule, q, same_request, c) ↦
                rw (step, e)
                  (copies-put s req copies (
                    filled-IsCopy cfg now fresh rule input req
                      (some-injective same_request ∙ c.request)))
          ]
      | inr (x, e) ↦ rw (step, e) copies
    ]
step-AreCopies cfg s (attaches id sent chat) copies = elim (Option-cases (get s.sending id)) [
  | inl none_there ↦ rw (step, none_there) copies
  | inr (req, there) ↦ rw (step, there) (copies-without s id copies)
]
step-AreCopies cfg s (decides now id user decision comment) copies = elim (Option-cases s.held) [
  | inl free ↦
      elim (Result-cases (decision_on approval_repo s.table now id user decision comment)) [
        | inl (q, e) ↦ rw (step, free, e) copies
        | inr (x, e) ↦ rw (step, free, e) copies
      ]
  | inr (q, taken) ↦ rw (step, taken) copies
]
step-AreCopies cfg s (cancels now id user) copies = elim (Option-cases s.held) [
  | inl free ↦ elim (Result-cases (cancellation_of approval_repo s.table now id user)) [
    | inl (q, e) ↦ rw (step, free, e) copies
    | inr (x, e) ↦ rw (step, free, e) copies
  ]
  | inr (q, taken) ↦ rw (step, taken) copies
]
step-AreCopies cfg s writes copies = elim (Option-cases s.held) [
  | inl free ↦ rw (step, free) copies
  | inr ((x, q), held) ↦ unfold approval_repo in rw (step, held) copies
]
step-AreCopies cfg s (ticks now) copies = copies

LockStep-Fits :
    (s : State) (op : Op) (o : Option String) (s' : State)
    → IsSoundState s
    → ((j : String) → RowStep s op j (get_by_id s.table j) (get_by_id s'.table j))
    → LockStep s o s'
    → (x : Bool) (q : ApprovalRequest) → s'.held ≡ some (x, q)
    → Fits s'.table x q
LockStep-Fits s op o s' i rows (keeps e k) x q h =
    RowStep-Fits s op s'.table x q (rows q.id) (i.held x q (sym k ∙ h))
LockStep-Fits s op o s' i rows (takes y p r e k t found open_now fits) x q h =
    let p-q = held-injective (sym k ∙ h) in
    subst (λ u. Fits u x q) (sym t)
      (subst (λ (z : Bool × ApprovalRequest). Fits s.table z.0 z.1) p-q fits)
LockStep-Fits s op o s' i rows (frees y p k none_now t e) x q h =
    absurd (none-ne-held (sym none_now ∙ h))

pub step-IsSoundState :
    (cfg : Config) (s : State) (op : Op) → IsSoundState s → IsSoundState (step cfg s op).1
step-IsSoundState cfg s op i = record {
  table = step-IsSoundTable cfg s op i;
  copies = step-AreCopies cfg s op i.copies;
  held =
      LockStep-Fits s op (step cfg s op).0 (step cfg s op).1 i
        (λ j. step-RowStep cfg s op j i.copies) (step-LockStep cfg s op i.table);
}
