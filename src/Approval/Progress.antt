-- ===== src/Approval/Progress.antt =====
-- Enough approvals let an action through.
use mathlib.Core.Path.{subst₂}
use telekube.Base.{
  Bool, true, ap, ◌∙◌, ℕ, suc, ◌+◌, ◌<◌, ◌≤◌, String, false, ◌≡◌, refl, sym, if◌then◌else◌, none,
  some, List, [], ◌∷◌, ◌==◌, nat_keyed, string_keyed, arith, ok, ltb, length, contains, eq_iff,
}
use telekube.Entity.Request.{
  ApprovalRequest, Approver, pending, approved, is_pending, approval_count, has_rejection,
  count_approved, any_rejected,
}
use telekube.Storage.Approvals.{Table, get_by_id, approval_repo, write, update_rows}
use telekube.Storage.Approvals.Rows.{get_by_id-update_rows, id-get_by_id}
use telekube.Approval.Manager.{Config, decision_on, settle, record_vote}
use telekube.Approval.Workflow.{State, Op, decides, writes, step, run, log}
use telekube.Approval.Votes.{has_voter, has_voter-record_vote}
use telekube.Approval.Soundness.{voted, id-settle}

-- Nothing stands in the way of a decision by this user.
pub record IsOpen (now : ℕ) (r : ApprovalRequest) : Type 0 where
  pub still_pending : r.status ≡ pending
  pub in_time : ltb r.expires_at now ≡ false
  pub unrejected : any_rejected r.approvers ≡ false

decision_open :
    (t : Table) (now : ℕ) (id : String) (user : ℕ) (decision comment : String) (r : ApprovalRequest)
    → get_by_id t id ≡ ok r
    → IsOpen now r
    → (user == r.requester_id) ≡ false
    → decision_on approval_repo t now id user decision comment
      ≡ ok (settle now user decision (voted now user decision comment r))
unfolding decision_on approval_repo is_pending
decision_open t now id user decision comment r found o other = ground arith

module _ (now voter : ℕ) (comment : String) where
  count_approved-record_vote :
      (approvers : List Approver)
      → has_voter voter approvers ≡ false
      → count_approved (record_vote now voter "approved" comment approvers)
        ≡ suc (count_approved approvers)
  unfolding count_approved record_vote
  count_approved-record_vote [] h = refl
  count_approved-record_vote (a ∷ rest) h = ground (arith, count_approved-record_vote rest)

  any_rejected_approving :
      (approvers : List Approver)
      → any_rejected approvers ≡ false
      → any_rejected (record_vote now voter "approved" comment approvers) ≡ false
  unfolding any_rejected record_vote
  any_rejected_approving [] h = refl
  any_rejected_approving (a ∷ rest) h = ground (arith, any_rejected_approving rest)

-- The users may vote: none is the requester or has voted, and none stands twice.
abbrev pub Eligible : ℕ → List Approver → List ℕ → Type 0
Eligible requester approvers [] = Unit
Eligible requester approvers (u ∷ users) =
    ((u == requester) ≡ false)
    × (has_voter u approvers ≡ false)
    × (contains users u ≡ false)
    × Eligible requester approvers users

Eligible-record_vote :
    (now requester u : ℕ) (decision comment : String) (approvers : List Approver) (users : List ℕ)
    → contains users u ≡ false
    → Eligible requester approvers users
    → Eligible requester (record_vote now u decision comment approvers) users
Eligible-record_vote now requester u decision comment approvers [] h e = tt
Eligible-record_vote now requester u decision comment approvers (v ∷ users) h e = ground (
  arith,
  has_voter-record_vote now u decision comment approvers v,
  Eligible-record_vote now requester u decision comment approvers users,
)

-- Each user approves, all at one time; nobody comes in between.
abbrev pub votes : ℕ → String → List ℕ → List Op
votes now id [] = []
votes now id (u ∷ users) = decides now id u "approved" "" ∷ writes ∷ votes now id users

-- The lock is free.
abbrev pub free : Table → List (String × ApprovalRequest) → State
free t sending = record { table = t; sending = sending; held = none }

abbrev settled : ℕ → ℕ → ApprovalRequest → Bool × ApprovalRequest
settled now u r = settle now u "approved" (voted now u "approved" "" r)

abbrev after : ℕ → ℕ → ApprovalRequest → ApprovalRequest
after now u r = write (settled now u r).1 r

module _ (cfg : Config) (t : Table) (sending : List (String × ApprovalRequest)) (now : ℕ)
    (id : String) (u : ℕ) (r : ApprovalRequest) (found : get_by_id t id ≡ ok r)
    (open_now : IsOpen now r) (other : (u == r.requester_id) ≡ false) where
  taken :
      step cfg (free t sending) (decides now id u "approved" "")
      ≡ (none, record { table = t; sending = sending; held = some (settled now u r) })
  unfolding step
  taken = rw (decision_open t now id u "approved" "" r found open_now other, step) refl

  written :
      step cfg (record { table = t; sending = sending; held = some (settled now u r) }) writes ≡ (
        if (settled now u r).0 then some (settled now u r).1.id else none,
        free (update_rows t (settled now u r).1) sending,
      )
  unfolding step approval_repo
  written = refl

  same_id : (settled now u r).1.id ≡ id
  same_id = id-settle now u "approved" _ ∙ id-get_by_id t id r found

  -- A vote and its write, and what follows.
  run_vote :
      (ops : List Op)
      → ((run cfg (free t sending) (decides now id u "approved" "" ∷ writes ∷ ops)).0
          ≡ log
              (if (settled now u r).0 then some id else none)
              (run cfg (free (update_rows t (settled now u r).1) sending) ops).0)
        × ((run cfg (free t sending) (decides now id u "approved" "" ∷ writes ∷ ops)).1
            ≡ (run cfg (free (update_rows t (settled now u r).1) sending) ops).1)
  unfolding run
  run_vote ops = rw (run, taken, written, same_id) (refl, refl)

  vote_row : get_by_id (update_rows t (settled now u r).1) id ≡ ok (after now u r)
  vote_row = ground (
    arith,
    get_by_id-update_rows t (settled now u r).1 id,
    id-settle now u "approved" (voted now u "approved" "" r),
    id-get_by_id t id r found,
    eq_iff r.id id,
  )

  module _ (unvoted : has_voter u r.approvers ≡ false) where
    vote_last :
        r.required_approvals ≤ suc (count_approved r.approvers)
        → ((settled now u r).0 ≡ true) × ((after now u r).status ≡ approved)
    unfolding settle write approval_count has_rejection
    vote_last enough =
        let counted = count_approved-record_vote now u "" r.approvers unvoted in
        let clean = any_rejected_approving now u "" r.approvers open_now.unrejected in
        ground (arith, counted, clean)

    vote_more :
        suc (count_approved r.approvers) < r.required_approvals
        → ((settled now u r).0 ≡ false)
          × IsOpen now (after now u r)
          × ((after now u r).approvers ≡ record_vote now u "approved" "" r.approvers)
          × (count_approved (after now u r).approvers ≡ suc (count_approved r.approvers))
    unfolding settle write approval_count has_rejection
    vote_more few =
        let counted = count_approved-record_vote now u "" r.approvers unvoted in
        let clean = any_rejected_approving now u "" r.approvers open_now.unrejected in
        ground (arith, counted, clean)

-- What a vote leaves alone.
after_frame :
    (now u : ℕ) (r : ApprovalRequest)
    → ((after now u r).requester_id ≡ r.requester_id)
      × ((after now u r).required_approvals ≡ r.required_approvals)
unfolding write
after_frame now u r = (refl, refl)

-- From an open request, as many approvals as are missing, by distinct users who are not the requester
-- and have not voted, made while the lock is free and nobody comes in between, let the action through
-- at the last of them, once, and leave the request approved.
pub votes_execute :
    (cfg : Config) (t : Table) (sending : List (String × ApprovalRequest)) (now : ℕ) (id : String)
    (u : ℕ) (users : List ℕ) (r : ApprovalRequest)
    → get_by_id t id ≡ ok r
    → IsOpen now r
    → Eligible r.requester_id r.approvers (u ∷ users)
    → count_approved r.approvers + length (u ∷ users) ≡ r.required_approvals
    → ((run cfg (free t sending) (votes now id (u ∷ users))).0 ≡ id ∷ [])
      × ((r' : ApprovalRequest) × (get_by_id
              (run cfg (free t sending) (votes now id (u ∷ users))).1.table
              id
            ≡ ok r')
          × (r'.status ≡ approved))
votes_execute cfg t sending now id u [] r found o e n =
    let (executed, done) = vote_last cfg t sending now id u r found o e.0 e.1 (omega arith) in
    let (ids, state) = run_vote cfg t sending now id u r found o e.0 [] in
    unfold run in
    (
      ids ∙ (rw executed refl),
      (
        after now u r,
        ap (λ (s : State). get_by_id s.table id) state
            ∙ vote_row cfg t sending now id u r found o e.0,
        done,
      ),
    )
votes_execute cfg t sending now id u (v ∷ users) r found o e n =
    let q = after now u r in
    let (quiet, open', same, more) =
      vote_more cfg t sending now id u r found o e.0 e.1 (omega arith) in
    let eligible : Eligible q.requester_id q.approvers (v ∷ users) =
      subst₂ (λ a b. Eligible a b (v ∷ users)) (sym (after_frame now u r).0) (sym same)
        (Eligible-record_vote now r.requester_id u "approved" "" r.approvers (v ∷ users) e.2 e.3) in
    let (executed, (r', reads, done)) =
      votes_execute cfg (update_rows t (settled now u r).1) sending now id v users q
        (vote_row cfg t sending now id u r found o e.0) open' eligible
        (omega (arith, (after_frame now u r).1, more)) in
    let (ids, state) = run_vote cfg t sending now id u r found o e.0 (votes now id (v ∷ users)) in
    (
      ids ∙ (rw (quiet, executed) refl),
      (r', ap (λ (s : State). get_by_id s.table id) state ∙ reads, done),
    )
