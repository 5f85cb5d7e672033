-- ===== src/Storage/Postgres/Approvals.antt =====
-- internal/storage/postgres/rbac_repo.go: ApprovalRepo, and the repository that is used without a
-- server. The statements that have no time are those of the SQLite repository.
use telekube.Base.{
  ℕ, String, Bool, ◌&&◌, Option, none, some, List, [], ◌∷◌, ◌++◌, map, ◌==◌, nat_keyed,
  string_keyed, if◌then◌else◌, ltb, any, count_if, not_found, message, Result, ok, err,
}
use telekube.Entity.Request.{ApprovalRequest, expired, pending?}
use telekube.Approval.Repository.{ApprovalRepository}
use telekube.Storage.Approvals.{
  Table, get_by_id as row_by_id, list_pending as pending_rows,
  list_by_requester as rows_of_requester,
}

unfoldable pub get_by_id : Table → String → Result ApprovalRequest
unfolding row_by_id
get_by_id t id = row_by_id t id

unfoldable pub list_pending : Table → Result (List ApprovalRequest)
unfolding pending_rows
list_pending t = pending_rows t

unfoldable pub list_by_requester : Table → ℕ → Result (List ApprovalRequest)
unfolding rows_of_requester
list_by_requester t user_id = rows_of_requester t user_id

module _ (round : ℕ → ℕ) where
  abbrev pub round? : Option ℕ → Option ℕ
  round? none = none
  round? (some t) = some (round t)

  -- The row of a new request.
  abbrev pub inserted : ApprovalRequest → ApprovalRequest
  inserted req = record req {
    created_at = round req.created_at;
    expires_at = round req.expires_at;
    resolved_at = none;
    resolved_by = none;
  }

  unfoldable pub create : Table → ApprovalRequest → Result Table
  create t req =
      if any (λ r. r.id == req.id) t
      then err (message "duplicate key value violates unique constraint")
      else ok (t ++ inserted req ∷ [])

  -- SET status = $2, approvers = $3, resolved_at = $4, resolved_by = $5, message_id = $6 WHERE id = $1
  abbrev pub set_columns : ApprovalRequest → ApprovalRequest → ApprovalRequest
  set_columns req r =
      if r.id == req.id
      then record r {
        status = req.status;
        approvers = req.approvers;
        resolved_at = round? req.resolved_at;
        resolved_by = req.resolved_by;
        message_id = req.message_id;
      }
      else r

  unfoldable pub update : Table → ApprovalRequest → Result Table
  update t req = ok (map (set_columns req) t)

  -- WHERE status = 'pending' AND expires_at < NOW()
  abbrev pub is_overdue : ℕ → ApprovalRequest → Bool
  is_overdue now r = pending? r.status && ltb r.expires_at (round now)

  abbrev pub set_expired : ℕ → ApprovalRequest → ApprovalRequest
  set_expired now r =
      if is_overdue now r then record r { status = expired; resolved_at = some (round now) } else r

  unfoldable pub expire_old : Table → ℕ → Result (ℕ × Table)
  expire_old t now = ok (count_if (is_overdue now) t, map (set_expired now) t)

  unfoldable pub approval_repo : ApprovalRepository Table
  unfolding get_by_id list_pending list_by_requester create update expire_old
  approval_repo = record {
    create = create;
    get_by_id = get_by_id;
    update = update;
    list_pending = list_pending;
    list_by_requester = list_by_requester;
    expire_old = expire_old;
  }

-- noopApprovalRepo keeps nothing.
unfoldable pub noop_approval_repo : ApprovalRepository (Unit {0})
noop_approval_repo = record {
  create = λ s req. ok s;
  get_by_id = λ s id. err not_found;
  update = λ s req. ok s;
  list_pending = λ s. ok [];
  list_by_requester = λ s user_id. ok [];
  expire_old = λ s now. ok (0, s);
}
