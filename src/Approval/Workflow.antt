-- ===== src/Approval/Workflow.antt =====
-- Histories of the approval workflow over the SQLite table: the calls of the Telegram handlers
-- (internal/module/approval/handler.go), of `CheckAndSubmit` and of the expiry worker, in any order and at
-- any times. Each operation is cut where another goroutine can come in between: `CheckAndSubmit` at its
-- message, and `Decide` and `Cancel`, which hold the manager's lock, between the read and the `Update`.
use telekube.Base.{
  ℕ, String, Bool, false, Option, none, some, List, [], ◌∷◌, ok, err, if◌then◌else◌, string_keyed,
  get, put, without,
}
use telekube.Entity.Request.{ApprovalRequest}
use telekube.Storage.Approvals.{Table, approval_repo}
use telekube.Approval.Manager.{
  Config, ApprovalInput, submit_if_required, attach_message, decision_on, cancellation_of,
  expiry_tick,
}

-- The table, the copies of the calls of `CheckAndSubmit` whose message is on its way, and what the call
-- that holds the lock is about to write, with `executeNow`.
pub record State : Type 0 where
  pub table : Table
  pub sending : List (String × ApprovalRequest)
  pub held : Option (Bool × ApprovalRequest)

pub data Op : Type 0 where
  -- now, the fresh identifier and the action
  submits : ℕ → String → ApprovalInput → Op
  -- the request, the message if Telegram took it, and its chat
  attaches : String → Option ℕ → ℕ → Op
  -- now, the request, the user, the decision and the comment
  decides : ℕ → String → ℕ → String → String → Op
  -- now, the request and the user
  cancels : ℕ → String → ℕ → Op
  -- the `Update` of the call that holds the lock
  writes : Op
  ticks : ℕ → Op

-- The request whose action is to run now, and the state. A call that waits for the lock changes nothing.
unfoldable pub step : Config → State → Op → Option String × State
step cfg s (submits now fresh input) =
    elim (submit_if_required approval_repo cfg s.table now fresh input) [
      | err e ↦ (none, s)
      | ok (none, t) ↦ (none, record s { table = t })
      | ok (some req, t) ↦ (none, record s { table = t; sending = put s.sending req.id req })
    ]
step cfg s (attaches id sent chat) = elim (get s.sending id) [
  | none ↦ (none, s)
  | some req ↦ (
    none,
    record s {
      table = attach_message approval_repo s.table req sent chat;
      sending = without s.sending id;
    },
  )
]
step cfg s (decides now id user decision comment) = elim s.held [
  | some q ↦ (none, s)
  | none ↦ elim (decision_on approval_repo s.table now id user decision comment) [
    | err e ↦ (none, s)
    | ok q ↦ (none, record s { held = some q })
  ]
]
step cfg s (cancels now id user) = elim s.held [
  | some q ↦ (none, s)
  | none ↦ elim (cancellation_of approval_repo s.table now id user) [
    | err e ↦ (none, s)
    | ok req ↦ (none, record s { held = some (false, req) })
  ]
]
step cfg s writes = elim s.held [
  | none ↦ (none, s)
  | some (execute, req) ↦ elim (approval_repo.update s.table req) [
    | err e ↦ (none, record s { held = none })
    | ok t ↦ (if execute then some req.id else none, record s { table = t; held = none })
  ]
]
step cfg s (ticks now) = (none, record s { table = expiry_tick approval_repo s.table now })

abbrev pub log : Option String → List String → List String
log none ids = ids
log (some id) ids = id ∷ ids

-- The identifiers that were let through, in order, and the final state.
unfoldable pub run : Config → State → List Op → List String × State
run cfg s [] = ([], s)
run cfg s (op ∷ ops) =
    let (executed, s') = step cfg s op in
    let (ids, final) = run cfg s' ops in (log executed ids, final)
