-- ===== src/Approval/Safety.antt =====
-- What holds after any history of the approval workflow.
use telekube.Base.{none, List, [], ◌∷◌, string_keyed}
use telekube.Storage.Approvals.{Table}
use telekube.Approval.Manager.{Config}
use telekube.Approval.Workflow.{State, Op, step, run}
use telekube.Approval.Held.{IsSoundTable, IsSoundState}
use telekube.Approval.Invariant.{step-IsSoundState}

-- No call is under way.
abbrev pub idle : Table → State
idle t = record { table = t; sending = []; held = none }

run-IsSoundState :
    (cfg : Config) (s : State) (ops : List Op) → IsSoundState s → IsSoundState (run cfg s ops).1
unfolding run
run-IsSoundState cfg s [] i = i
run-IsSoundState cfg s (op ∷ ops) i =
    run-IsSoundState cfg (step cfg s op).1 ops (step-IsSoundState cfg s op i)

pub idle-IsSoundState : (t : Table) → IsSoundTable t → IsSoundState (idle t)
idle-IsSoundState t i = record { table = i; copies = λ id req h. cc; held = λ x q h. cc }

-- From a table of sound requests, as the empty one is, every request that any history leaves is sound:
-- its approvers are distinct and the requester is not among them; it is approved only with the
-- required number of approvals and no rejection, rejected only with one, and resolved exactly if it is
-- no longer pending. That holds whatever comes between a message and its update, and between the read
-- and the write of a decision.
pub run-IsSoundTable :
    (cfg : Config) (t : Table) (ops : List Op)
    → IsSoundTable t
    → IsSoundTable (run cfg (idle t) ops).1.table
run-IsSoundTable cfg t ops i =
    let sound = run-IsSoundState cfg (idle t) ops (idle-IsSoundState t i) in sound.table
