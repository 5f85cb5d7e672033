-- ===== src/Entity/Request.antt =====
-- internal/entity/approval_request.go: approval requests and their approvers. The `Details` payload,
-- which no decision reads, is left out.
use telekube.Base.{
  ℕ, suc, String, Bool, true, false, Option, List, [], ◌∷◌, if◌then◌else◌, ◌==◌, string_keyed,
}

-- The values of `ApprovalStatus`, and the empty string of a request that has not been submitted: the
-- code writes no other string to a status.
pub data Status : Type 0 where
  pending approved rejected expired cancelled unset : Status

pub record Approver : Type 0 where
  pub user_id : ℕ
  pub decision : String
  pub comment : String
  pub decided_at : Option ℕ

pub record ApprovalRequest : Type 0 where
  pub id : String
  pub requester_id : ℕ
  pub requester_name : String
  pub action : String
  pub resource : String
  pub cluster : String
  pub namespace : String
  pub status : Status
  pub approvers : List Approver
  pub required_approvals : ℕ
  pub created_at : ℕ
  pub expires_at : ℕ
  pub resolved_at : Option ℕ
  pub resolved_by : Option ℕ
  pub chat_id : ℕ
  pub message_id : ℕ

-- `r.Status == ApprovalPending`
abbrev pub pending? : Status → Bool
pending? pending = true
pending? _ = false

unfoldable pub is_pending : ApprovalRequest → Bool
is_pending r = pending? r.status

-- The loop of `ApprovalCount`.
unfoldable pub count_approved : List Approver → ℕ
count_approved [] = 0
count_approved (a ∷ rest) =
    let n = count_approved rest in if a.decision == "approved" then suc n else n

unfoldable pub approval_count : ApprovalRequest → ℕ
unfolding count_approved
approval_count r = count_approved r.approvers

-- The loop of `HasRejection`.
unfoldable pub any_rejected : List Approver → Bool
any_rejected [] = false
any_rejected (a ∷ rest) = if a.decision == "rejected" then true else any_rejected rest

unfoldable pub has_rejection : ApprovalRequest → Bool
unfolding any_rejected
has_rejection r = any_rejected r.approvers
