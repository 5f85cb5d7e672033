-- ===== src/Approval/Repository.antt =====
-- internal/storage/storage.go: the `ApprovalRepository` interface, over the state `S` behind it.
use telekube.Base.{ℕ, String, List, Result}
use telekube.Entity.Request.{ApprovalRequest}

pub record ApprovalRepository (S : Type 0) : Type 0 where
  pub create : S → ApprovalRequest → Result S
  pub get_by_id : S → String → Result ApprovalRequest
  pub update : S → ApprovalRequest → Result S
  pub list_pending : S → Result (List ApprovalRequest)
  pub list_by_requester : S → ℕ → Result (List ApprovalRequest)
  pub expire_old : S → ℕ → Result (ℕ × S)
