-- ===== src/Approval/Calls.antt =====
-- What a successful call of the manager (internal/module/approval/module.go) found and did, over the
-- SQLite table.
use telekube.Base.{
  ℕ, ◌+◌, ◌⊎◌, Bool-cases, String, Bool, true, false, ◌≡◌, Option, none, some, ◌==◌, nat_keyed,
  string_keyed, ltb, any, arith, ok, Result-cases, inl, inr, Option-cases, ◌++◌, ◌∷◌, [],
}
use telekube.Entity.Request.{ApprovalRequest, Status, pending, cancelled, is_pending, pending?}
use telekube.Storage.Approvals.{Table, approval_repo, create, stored, get_by_id}
use telekube.Approval.Manager.{
  Config, Rule, ApprovalInput, requires_approval, settle, decision_on, cancellation_of,
  submit_if_required, new_request,
}
use telekube.Approval.Soundness.{voted}

-- A decision that is accepted: the request is pending and in time, the user is not its requester, and
-- the vote is to be written.
pub record Accepted (t : Table) (now : ℕ) (id : String) (user : ℕ) (decision comment : String)
    (q : Bool × ApprovalRequest) (r : ApprovalRequest) : Type 0 where
  pub found : get_by_id t id ≡ ok r
  pub still_pending : r.status ≡ pending
  pub in_time : ltb r.expires_at now ≡ false
  pub other : (user == r.requester_id) ≡ false
  pub answer : q ≡ settle now user decision (voted now user decision comment r)

pending?-eq : (s : Status) → pending? s ≡ true → s ≡ pending
pending?-eq s h = ground arith

pub decision_on-Accepted :
    (t : Table) (now : ℕ) (id : String) (user : ℕ) (decision comment : String)
    (q : Bool × ApprovalRequest)
    → decision_on approval_repo t now id user decision comment ≡ ok q
    → (r : ApprovalRequest) × Accepted t now id user decision comment q r
unfolding decision_on approval_repo is_pending
decision_on-Accepted t now id user decision comment q h = elim (Result-cases (get_by_id t id)) [
  | inl (r, e) ↦ (r, ground (arith, pending?-eq r.status))
  | inr (e, g) ↦ absurd (ground arith)
]

-- A cancellation that is accepted.
pub record Cancels (t : Table) (now : ℕ) (id : String) (user : ℕ) (q r : ApprovalRequest)
    : Type 0 where
  pub found : get_by_id t id ≡ ok r
  pub still_pending : r.status ≡ pending
  pub answer : q ≡ record r { status = cancelled; resolved_at = some now; resolved_by = some user }

pub cancellation_of-Cancels :
    (t : Table) (now : ℕ) (id : String) (user : ℕ) (q : ApprovalRequest)
    → cancellation_of approval_repo t now id user ≡ ok q
    → (r : ApprovalRequest) × Cancels t now id user q r
unfolding cancellation_of approval_repo is_pending
cancellation_of-Cancels t now id user q h = elim (Result-cases (get_by_id t id)) [
  | inl (r, e) ↦ (r, ground (arith, pending?-eq r.status))
  | inr (e, g) ↦ absurd (ground arith)
]

-- The request of a submission that is stored.
abbrev pub filled : Config → ℕ → String → Rule → ApprovalInput → ApprovalRequest
filled cfg now fresh rule input = record (new_request input) {
  id = fresh;
  status = pending;
  required_approvals = rule.required_approvals;
  created_at = now;
  expires_at = now + cfg.default_expiry;
}

pub record Submits (cfg : Config) (t : Table) (now : ℕ) (fresh : String) (input : ApprovalInput)
    (req : ApprovalRequest) (t' : Table) (rule : Rule) : Type 0 where
  pub unused : any (λ r. r.id == fresh) t ≡ false
  pub request : req ≡ filled cfg now fresh rule input
  pub table : t' ≡ t ++ stored req ∷ []

pub submit_if_required-cases :
    (cfg : Config) (t : Table) (now : ℕ) (fresh : String) (input : ApprovalInput)
    (o : Option ApprovalRequest) (t' : Table)
    → submit_if_required approval_repo cfg t now fresh input ≡ ok (o, t')
    → ((o ≡ none) × (t' ≡ t))
      ⊎ ((rule : Rule) × (req : ApprovalRequest) × (o ≡ some req)
          × Submits cfg t now fresh input req t' rule)
unfolding submit_if_required approval_repo create
submit_if_required-cases cfg t now fresh input o t' h =
    elim (Option-cases (requires_approval cfg input.action input.cluster)) [
      | inl e ↦ inl (ground arith)
      | inr (rule, e) ↦ elim (Bool-cases cfg.enabled) [
        | inl on ↦ inr (rule, filled cfg now fresh rule input, ground arith, ground arith)
        | inr off ↦ inl (ground arith)
      ]
    ]
