-- ===== src/Approval/Attach.antt =====
-- internal/module/approval/checker.go: the update that follows the message. It is made without the
-- manager's lock, and from a copy of the request that was taken before the message was sent.
use telekube.Base.{ℕ, ◌≡◌, refl, some, ok, arith, string_keyed, same_refl}
use telekube.Entity.Request.{ApprovalRequest, pending}
use telekube.Storage.Approvals.{Table, get_by_id, approval_repo, write}
use telekube.Storage.Approvals.Rows.{get_by_id-update_rows}
use telekube.Approval.Manager.{attach_message}

-- Whatever has been decided on a request since its copy was taken, attaching the message puts the
-- stored request back: it is pending again, with the votes of the copy. The chat of the message is not
-- stored.
pub attach_message_reopens :
    (t : Table) (req r : ApprovalRequest) (m chat : ℕ)
    → get_by_id t req.id ≡ ok r
    → req.status ≡ pending
    → (r' : ApprovalRequest) × (get_by_id (attach_message approval_repo t req (some m) chat) req.id
        ≡ ok r')
      × (r'.status ≡ pending)
      × (r'.approvers ≡ req.approvers)
      × (r'.message_id ≡ m)
      × (r'.chat_id ≡ r.chat_id)
unfolding attach_message approval_repo write
attach_message_reopens t req r m chat found p = (
  write (record req { message_id = m; chat_id = chat }) r,
  ground (
    arith,
    get_by_id-update_rows t (record req { message_id = m; chat_id = chat }) req.id,
    same_refl req.id,
  ),
  p,
  refl,
  refl,
  refl,
)
