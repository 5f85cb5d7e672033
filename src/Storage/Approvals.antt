-- ===== src/Storage/Approvals.antt =====
-- internal/storage/sqlite/rbac_repo.go, the `approvalRepo`: the table `approval_requests`. Its times
-- are texts in time.RFC3339, in UTC, so they have no part of a second and compare as numbers do.
pub mod Rows
pub mod Refinement
use telekube.Base.{
  ℕ, String, Bool, ◌&&◌, none, some, List, [], ◌∷◌, ◌++◌, ◌==◌, nat_keyed, string_keyed,
  if◌then◌else◌, ltb, leb, any, select, count_if, not_found, message, Result, ok, err, reverse,
}
use telekube.Entity.Request.{ApprovalRequest, expired, pending?}
use telekube.Approval.Repository.{ApprovalRepository}
use telekube.Storage.Roles.{to_seconds, to_seconds?}

abbrev pub Table : Type 0
Table = List ApprovalRequest

-- The row of a new request.
abbrev pub stored : ApprovalRequest → ApprovalRequest
stored req = record req {
  created_at = to_seconds req.created_at;
  expires_at = to_seconds req.expires_at;
  resolved_at = none;
  resolved_by = none;
}

unfoldable pub create : Table → ApprovalRequest → Result Table
create t req =
    if any (λ r. r.id == req.id) t
    then err (message "UNIQUE constraint failed: approval_requests.id")
    else ok (t ++ stored req ∷ [])

unfoldable pub get_by_id : Table → String → Result ApprovalRequest
get_by_id [] id = err not_found
get_by_id (r ∷ rest) id = if r.id == id then ok r else get_by_id rest id

-- The columns that `Update` writes; the others keep what is stored.
unfoldable pub write : ApprovalRequest → ApprovalRequest → ApprovalRequest
write req r = record r {
  status = req.status;
  approvers = req.approvers;
  resolved_at = to_seconds? req.resolved_at;
  resolved_by = req.resolved_by;
  message_id = req.message_id;
}

-- UPDATE … WHERE id = ?
unfoldable pub update_rows : Table → ApprovalRequest → Table
unfolding write
update_rows [] req = []
update_rows (r ∷ rest) req = (if r.id == req.id then write req r else r) ∷ update_rows rest req

unfoldable pub update : Table → ApprovalRequest → Result Table
unfolding update_rows
update t req = ok (update_rows t req)

-- ORDER BY created_at ASC
unfoldable pub insert_by_age : ApprovalRequest → Table → Table
insert_by_age r [] = r ∷ []
insert_by_age r (q ∷ rest) =
    if leb r.created_at q.created_at then r ∷ q ∷ rest else q ∷ insert_by_age r rest

unfoldable pub sort_by_age : Table → Table
unfolding insert_by_age
sort_by_age [] = []
sort_by_age (r ∷ rest) = insert_by_age r (sort_by_age rest)

unfoldable pub list_pending : Table → Result (List ApprovalRequest)
unfolding sort_by_age
list_pending t = ok (sort_by_age (select (λ r. pending? r.status) t))

unfoldable pub list_by_requester : Table → ℕ → Result (List ApprovalRequest)
unfolding sort_by_age
list_by_requester t user_id = ok (reverse (sort_by_age (select (λ r. r.requester_id == user_id) t)))

-- WHERE status = 'pending' AND expires_at < ?
abbrev pub is_overdue : ℕ → ApprovalRequest → Bool
is_overdue now r = pending? r.status && ltb r.expires_at (to_seconds now)

unfoldable pub expire : ℕ → ApprovalRequest → ApprovalRequest
expire now r =
    if is_overdue now r
    then record r { status = expired; resolved_at = some (to_seconds now) }
    else r

unfoldable pub expire_rows : Table → ℕ → Table
unfolding expire
expire_rows [] now = []
expire_rows (r ∷ rest) now = expire now r ∷ expire_rows rest now

unfoldable pub expire_old : Table → ℕ → Result (ℕ × Table)
unfolding expire_rows
expire_old t now = ok (count_if (is_overdue now) t, expire_rows t now)

unfoldable pub approval_repo : ApprovalRepository Table
unfolding create get_by_id update list_pending list_by_requester expire_old
approval_repo = record {
  create = create;
  get_by_id = get_by_id;
  update = update;
  list_pending = list_pending;
  list_by_requester = list_by_requester;
  expire_old = expire_old;
}
