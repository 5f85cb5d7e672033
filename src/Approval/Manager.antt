-- ===== src/Approval/Manager.antt =====
-- internal/module/approval/module.go and checker.go. The clock is the argument `now`, which every
-- reading of it within one operation returns; `fresh` is the ULID that is drawn.
use telekube.Base.{
  ℕ, ◌+◌, ◌*◌, String, Bool, true, false, ◌||◌, not, Option, none, some, List, [], ◌∷◌, ◌==◌,
  nat_keyed, string_keyed, if◌then◌else◌, ltb, leb, any, message, errorf, wrapped, Result, ok, err,
  ◌>>=◌, ◌>>◌, guard,
}
use telekube.Entity.Request.{
  ApprovalRequest, Approver, Status, pending, approved, rejected, expired, cancelled, unset,
  is_pending, approval_count, has_rejection,
}
use telekube.Approval.Repository.{ApprovalRepository}

pub record Rule : Type 0 where
  pub action : String
  pub clusters : List String
  pub required_approvals : ℕ
  pub approver_roles : List String

pub record Config : Type 0 where
  pub enabled : Bool
  pub default_expiry : ℕ
  pub rules : List Rule

-- 30 minutes in nanoseconds, where the configuration gives no expiry.
unfoldable pub normalize : Config → Config
normalize cfg = record cfg {
  default_expiry = if cfg.default_expiry == 0 then 30 * 60 * 1_000_000_000 else cfg.default_expiry;
}

-- The loop of `RequiresApproval` over the rules: the first that names the action and the cluster.
unfoldable pub find_rule : List Rule → String → String → Option Rule
find_rule [] action cluster = none
find_rule (r ∷ rest) action cluster =
    let later = find_rule rest action cluster in
    if r.action == action
    then if any (λ c. c == "*" || c == cluster) r.clusters then some r else later
    else later

unfoldable pub requires_approval : Config → String → String → Option Rule
unfolding find_rule
requires_approval cfg action cluster =
    if cfg.enabled then find_rule cfg.rules action cluster else none

-- `fmt.Errorf("…: %w", err)` on the error path.
abbrev pub wrap {ℓ} : {A : Type ℓ} → String → Result A → Result A
wrap format (ok a) = ok a
wrap format (err e) = err (wrapped format e)

abbrev status_name : Status → String
status_name pending = "pending"
status_name approved = "approved"
status_name rejected = "rejected"
status_name expired = "expired"
status_name cancelled = "cancelled"
status_name unset = ""

-- The loop over the approvers: the first entry of the user is overwritten, or a new one appended.
unfoldable pub record_vote : ℕ → ℕ → String → String → List Approver → List Approver
record_vote now approver_id decision comment [] =
    record { user_id = approver_id; decision = decision; comment = comment; decided_at = some now }
    ∷ []
record_vote now approver_id decision comment (a ∷ rest) =
    if a.user_id == approver_id
    then record a { decision = decision; comment = comment; decided_at = some now } ∷ rest
    else a ∷ record_vote now approver_id decision comment rest

-- The new status once the vote is recorded, and `executeNow`.
unfoldable pub settle : ℕ → ℕ → String → ApprovalRequest → Bool × ApprovalRequest
settle now approver_id decision req =
    if decision == "rejected" || has_rejection req
    then (
      false,
      record req { status = rejected; resolved_at = some now; resolved_by = some approver_id },
    )
    else if leb req.required_approvals (approval_count req)
    then (
      true,
      record req { status = approved; resolved_at = some now; resolved_by = some approver_id },
    )
    else (false, req)

-- What another module hands over; the payload `Details` is left out.
pub record ApprovalInput : Type 0 where
  pub user_id : ℕ
  pub username : String
  pub action : String
  pub resource : String
  pub cluster : String
  pub namespace : String
  pub callback_data : String

-- The request that `CheckAndSubmit` builds; the fields that it does not set are Go's zero values, and
-- the status is the empty string until `Submit` sets it.
unfoldable pub new_request : ApprovalInput → ApprovalRequest
new_request input = record {
  id = "";
  requester_id = input.user_id;
  requester_name = input.username;
  action = input.action;
  resource = input.resource;
  cluster = input.cluster;
  namespace = input.namespace;
  status = unset;
  approvers = [];
  required_approvals = 0;
  created_at = 0;
  expires_at = 0;
  resolved_at = none;
  resolved_by = none;
  chat_id = 0;
  message_id = 0;
}

module _ {S : Type 0} (repo : ApprovalRepository S) where
  -- The request as it is filled in and stored comes back too: the caller's pointer sees it.
  unfoldable pub submit : Config → S → ℕ → String → ApprovalRequest → Result (ApprovalRequest × S)
  unfolding requires_approval
  submit cfg s now fresh req = elim (requires_approval cfg req.action req.cluster) [
    | none ↦
        err (
          errorf "no approval rule matches action %q on cluster %q" (req.action ∷ req.cluster ∷ []))
    | some rule ↦
        let filled : ApprovalRequest = record req {
          id = fresh;
          status = pending;
          required_approvals = rule.required_approvals;
          created_at = now;
          expires_at = now + cfg.default_expiry;
        } in
        do s' ← wrap "creating approval request: %w" (repo.create s filled); ok (filled, s')
  ]

  -- What `Decide` makes of the request that it reads, up to its `Update`.
  unfoldable pub decision_on :
      S → ℕ → String → ℕ → String → String → Result (Bool × ApprovalRequest)
  unfolding record_vote settle
  decision_on s now request_id approver_id decision comment = do
    req ← wrap "fetching approval request: %w" (repo.get_by_id s request_id)
    guard (is_pending req)
        (errorf "request %s is already %s" (request_id ∷ status_name req.status ∷ []))
    guard (not (ltb req.expires_at now)) (errorf "request %s has expired" (request_id ∷ []))
    guard (not (approver_id == req.requester_id))
        (message "requester cannot approve their own request")
    ok (
        settle now approver_id decision
          (record req { approvers = record_vote now approver_id decision comment req.approvers }))

  -- `Decide` while nobody else writes.
  unfoldable pub decide : S → ℕ → String → ℕ → String → String → Result (Bool × S)
  unfolding decision_on
  decide s now request_id approver_id decision comment = do
    (execute, req) ← decision_on s now request_id approver_id decision comment
    s' ← wrap "updating approval request: %w" (repo.update s req)
    ok (execute, s')

  -- What `Cancel` makes of the request that it reads, up to its `Update`.
  unfoldable pub cancellation_of : S → ℕ → String → ℕ → Result ApprovalRequest
  cancellation_of s now request_id requester_id = do
    req ← repo.get_by_id s request_id
    guard (req.requester_id == requester_id) (message "only the requester can cancel this request")
    guard (is_pending req) (message "request is not pending")
    ok (record req { status = cancelled; resolved_at = some now; resolved_by = some requester_id })

  -- `Cancel` while nobody else writes.
  unfoldable pub cancel : S → ℕ → String → ℕ → Result S
  unfolding cancellation_of
  cancel s now request_id requester_id = do
    req ← cancellation_of s now request_id requester_id
    repo.update s req

  -- One tick of the expiry worker; an error leaves the state and is logged.
  unfoldable pub expiry_tick : S → ℕ → S
  expiry_tick s now = elim (repo.expire_old s now) [ err e ↦ s | ok (n, s') ↦ s' ]

  -- The second half of `CheckAndSubmit`, after the message has been sent: the message and the chat are
  -- written to the caller's copy of the request, and the copy to the repository. Errors are dropped.
  unfoldable pub attach_message : S → ApprovalRequest → Option ℕ → ℕ → S
  attach_message s req none chat_id = s
  attach_message s req (some message_id) chat_id =
      elim (repo.update s (record req { message_id = message_id; chat_id = chat_id })) [
        | err e ↦ s
        | ok s' ↦ s'
      ]

  -- The first half of `CheckAndSubmit`, up to the message: the request that was stored, unless none is
  -- needed.
  unfoldable pub submit_if_required :
      Config → S → ℕ → String → ApprovalInput → Result (Option ApprovalRequest × S)
  unfolding requires_approval submit new_request
  submit_if_required cfg s now fresh input =
      if cfg.enabled
      then elim (requires_approval cfg input.action input.cluster) [
        | none ↦ ok (none, s)
        | some rule ↦ do (req, s') ← submit cfg s now fresh (new_request input); ok (some req, s')
      ]
      else ok (none, s)

  -- `CheckAndSubmit`. `meanwhile` is what others make of the repository while the message is on its
  -- way; `sent` is the identifier of the message, if Telegram took it. The answer says whether the
  -- action has to wait.
  unfoldable pub check_and_submit :
      Config → (S → S) → S → ℕ → String → Option ℕ → ℕ → ApprovalInput → Result (Bool × S)
  unfolding submit_if_required attach_message
  check_and_submit cfg meanwhile s now fresh sent chat_id input = do
    (submitted, s') ← submit_if_required cfg s now fresh input
    elim submitted [
      | none ↦ ok (false, s')
      | some req ↦ ok (true, attach_message (meanwhile s') req sent chat_id)
    ]
