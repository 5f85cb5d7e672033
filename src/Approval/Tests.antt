-- ===== src/Approval/Tests.antt =====
-- Runs of the approval workflow, and the theorems at concrete inputs.
use telekube.Base.{◌≤◌, string_keyed, arith, true, ◌≡◌, refl, none, some, List, [], ◌∷◌, ok}
use telekube.Entity.Request.{
  ApprovalRequest, pending, approved, rejected, is_pending, has_rejection, approval_count,
  count_approved, any_rejected,
}
use telekube.Storage.Approvals.{approval_repo, get_by_id}
use telekube.Approval.Manager.{
  Config, ApprovalInput, new_request, submit_if_required, decision_on, attach_message, expiry_tick,
}
use telekube.Approval.Workflow.{Op, submits, attaches, decides, writes, ticks, step, run}
use telekube.Approval.Soundness.{IsSound}
use telekube.Approval.Held.{IsSoundTable}
use telekube.Approval.Safety.{idle, idle-IsSoundState, run-IsSoundTable}
use telekube.Approval.Execution.{times, run_at_most, run_final}
use telekube.Approval.Attach.{attach_message_reopens}
use telekube.Approval.Progress.{free, votes, votes_execute}

abbrev config : Config
config = record {
  enabled = true;
  default_expiry = 60_000_000_000;
  rules =
      record {
        action = "argocd.apps.sync";
        clusters = "prod-1" ∷ [];
        required_approvals = 2;
        approver_roles = "admin" ∷ [];
      }
      ∷ [];
}

abbrev sync : ApprovalInput
sync = record {
  user_id = 10;
  username = "dev";
  action = "argocd.apps.sync";
  resource = "payment-service";
  cluster = "prod-1";
  namespace = "";
  callback_data = "prod-1|payment-service|sync_now";
}

-- What the submission below leaves, with the status and the votes of an argument.
abbrev row : ApprovalRequest
row = record {
  id = "R";
  requester_id = 10;
  requester_name = "dev";
  action = "argocd.apps.sync";
  resource = "payment-service";
  cluster = "prod-1";
  namespace = "";
  status = pending;
  approvers = [];
  required_approvals = 2;
  created_at = 5_000_000_000;
  expires_at = 65_000_000_000;
  resolved_at = none;
  resolved_by = none;
  chat_id = 0;
  message_id = 77;
}

-- The requester's own vote is refused, a vote that is cast twice counts once, and a vote after the
-- decision is refused.
abbrev history : List Op
history =
    submits 5_200_000_000 "R" sync
    ∷ attaches "R" (some 77) 900
    ∷ decides 6_000_000_000 "R" 10 "approved" ""
    ∷ decides 7_000_000_000 "R" 11 "approved" ""
    ∷ writes
    ∷ decides 8_000_000_000 "R" 11 "approved" ""
    ∷ writes
    ∷ decides 9_000_000_000 "R" 12 "approved" ""
    ∷ writes
    ∷ decides 9_500_000_000 "R" 13 "rejected" ""
    ∷ ticks 90_000_000_000
    ∷ []

history_executes : (run config (idle []) history).0 ≡ "R" ∷ []
unfolding run step submit_if_required attach_message decision_on approval_repo expiry_tick
    is_pending has_rejection approval_count
history_executes = refl

submitted :
    (run config
      (idle [])
      (submits 5_200_000_000 "R" sync ∷ attaches "R" (some 77) 900 ∷ [])).1.table
    ≡ row ∷ []
unfolding run step submit_if_required attach_message approval_repo new_request
submitted = refl

-- The message arrives after the request has been approved, and the action is let through again.
abbrev late : List Op
late =
    submits 5_200_000_000 "R" sync
    ∷ decides 7_000_000_000 "R" 11 "approved" ""
    ∷ writes
    ∷ decides 9_000_000_000 "R" 12 "approved" ""
    ∷ writes
    ∷ attaches "R" (some 77) 900
    ∷ decides 10_000_000_000 "R" 11 "approved" ""
    ∷ writes
    ∷ decides 11_000_000_000 "R" 12 "approved" ""
    ∷ writes
    ∷ []

late_executes : (run config (idle []) late).0 ≡ "R" ∷ "R" ∷ []
unfolding run step submit_if_required attach_message decision_on approval_repo is_pending
    has_rejection approval_count
late_executes = refl

IsSoundTable-empty : IsSoundTable []
unfolding get_by_id
IsSoundTable-empty = record { at_id = λ id r e. cc }

run-IsSoundTable_example : IsSoundTable (run config (idle []) late).1.table
run-IsSoundTable_example = run-IsSoundTable config [] late IsSoundTable-empty

run_at_most_example : times "R" (run config (idle []) late).0 ≤ 2
unfolding get_by_id
run_at_most_example =
    run_at_most config (idle []) late "R" (idle-IsSoundState [] IsSoundTable-empty)

abbrev resolved : ApprovalRequest
resolved = record row {
  status = rejected;
  approvers =
      record { user_id = 11; decision = "rejected"; comment = ""; decided_at = some 7 } ∷ [];
  resolved_at = some 7;
  resolved_by = some 11;
}

resolved-IsSound : IsSound resolved
unfolding has_rejection approval_count any_rejected count_approved
resolved-IsSound = ground arith

IsSoundTable-resolved : IsSoundTable (resolved ∷ [])
unfolding get_by_id
IsSoundTable-resolved = record { at_id = λ id r e. ground (arith, resolved-IsSound) }

run_final_example :
    get_by_id
      (run config
        (idle (resolved ∷ []))
        (decides 6_000_000_000 "R" 12 "approved" "" ∷ writes ∷ ticks 90_000_000_000 ∷ [])).1.table
      "R"
    ≡ ok resolved
run_final_example =
    run_final config (idle (resolved ∷ []))
      (decides 6_000_000_000 "R" 12 "approved" "" ∷ writes ∷ ticks 90_000_000_000 ∷ []) "R" resolved
      (idle-IsSoundState (resolved ∷ []) IsSoundTable-resolved) (unfold get_by_id in refl) (λ e. cc)
      refl refl

votes_execute_example :
    (run config (free (row ∷ []) []) (votes 6_000_000_000 "R" (11 ∷ 12 ∷ []))).0 ≡ "R" ∷ []
unfolding get_by_id count_approved any_rejected
votes_execute_example =
    (votes_execute config (row ∷ []) [] 6_000_000_000 "R" 11 (12 ∷ []) row refl
      (record { still_pending = refl; in_time = refl; unrejected = refl })
      (refl, refl, refl, (refl, refl, refl, tt)) refl).0

-- The request has been approved while its message was on the way.
attach_message_reopens_example :
    (r' : ApprovalRequest) × (get_by_id
        (attach_message approval_repo (record row { status = approved } ∷ []) row (some 77) 900)
        "R"
      ≡ ok r')
    × (r'.status ≡ pending)
    × (r'.approvers ≡ [])
    × (r'.message_id ≡ 77)
    × (r'.chat_id ≡ 0)
unfolding get_by_id
attach_message_reopens_example =
    attach_message_reopens (record row { status = approved } ∷ []) row
      (record row { status = approved }) 77 900 refl refl
