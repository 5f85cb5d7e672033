-- ===== src/Approval/Soundness.antt =====
-- Every stored request is sound, whatever the history: its approvals come from distinct users other
-- than the requester, and its status is what they amount to.
use telekube.Base.{
  none, some, [], ℕ, ◌≤◌, String, true, false, ◌≡◌, ◌==◌, nat_keyed, string_keyed, arith,
}
use telekube.Entity.Freeze.{is_none}
use telekube.Entity.Request.{
  ApprovalRequest, cancelled, pending, approved, rejected, pending?, approval_count, has_rejection,
}
use telekube.Storage.Approvals.{write, expire}
use telekube.Approval.Manager.{record_vote, settle}
use telekube.Approval.Votes.{
  has_voter, Distinct, has_voter-record_vote, record_vote-Distinct, any_rejected-record_vote,
}

pub record IsSound (r : ApprovalRequest) : Type 0 where
  pub distinct : Distinct r.approvers
  pub not_self : has_voter r.requester_id r.approvers ≡ false
  pub pending_open : r.status ≡ pending → has_rejection r ≡ false
  pub approved_full :
      r.status ≡ approved → (r.required_approvals ≤ approval_count r) × (has_rejection r ≡ false)
  pub rejected_by : r.status ≡ rejected → has_rejection r ≡ true
  pub resolved : is_none r.resolved_at ≡ pending? r.status

-- A request with the vote of somebody else, settled and written over the stored row.
abbrev pub voted : ℕ → ℕ → String → String → ApprovalRequest → ApprovalRequest
voted now user decision comment r = record r {
  approvers = record_vote now user decision comment r.approvers;
}

pub settle-IsSound :
    (now user : ℕ) (decision comment : String) (r : ApprovalRequest)
    → IsSound r
    → r.status ≡ pending
    → (user == r.requester_id) ≡ false
    → IsSound (write (settle now user decision (voted now user decision comment r)).1 r)
unfolding settle write has_rejection approval_count
settle-IsSound now user decision comment r s p other = record {
  distinct = ground (arith, record_vote-Distinct now user decision comment r.approvers s.distinct);
  not_self = ground (
    arith,
    has_voter-record_vote now user decision comment r.approvers r.requester_id,
    s.not_self,
  );
  pending_open = ground arith;
  approved_full = ground arith;
  rejected_by = ground (arith, any_rejected-record_vote now user decision comment r.approvers);
  resolved = ground (arith, s.resolved);
}

pub expire-IsSound : (now : ℕ) (r : ApprovalRequest) → IsSound r → IsSound (expire now r)
unfolding expire has_rejection approval_count
expire-IsSound now r s = ground arith

pub cancelled-IsSound :
    (now user : ℕ) (r : ApprovalRequest)
    → IsSound r
    → IsSound
        (write (record r { status = cancelled; resolved_at = some now; resolved_by = some user }) r)
unfolding write has_rejection approval_count
cancelled-IsSound now user r s = ground arith

-- The row that a new request leaves, or that the update after its message puts back: pending, with no
-- votes.
pub record IsNew (r : ApprovalRequest) : Type 0 where
  pub is_pending : r.status ≡ pending
  pub no_votes : r.approvers ≡ []
  pub unresolved : r.resolved_at ≡ none

pub IsNew-IsSound : (r : ApprovalRequest) → IsNew r → IsSound r
unfolding has_rejection approval_count
IsNew-IsSound r n = ground arith

pub id-settle :
    (now user : ℕ) (decision : String) (r : ApprovalRequest)
    → (settle now user decision r).1.id ≡ r.id
unfolding settle
id-settle now user decision r = ground arith

pub settle_executes :
    (now user : ℕ) (decision : String) (r : ApprovalRequest)
    → (settle now user decision r).0 ≡ true
    → (settle now user decision r).1.status ≡ approved
unfolding settle
settle_executes now user decision r h = ground arith
