-- ===== src/Approval/Votes.antt =====
-- The approvers of a request: internal/entity/approval_request.go's counts and the recording of a
-- vote in internal/module/approval/module.go.
use telekube.Base.{
  ℕ, String, Bool, true, false, ◌≡◌, refl, ◌||◌, List, [], ◌∷◌, ◌==◌, nat_keyed, string_keyed, any,
  arith,
}
use telekube.Entity.Request.{Approver, any_rejected}
use telekube.Approval.Manager.{record_vote}

-- The user has an entry.
abbrev pub has_voter : ℕ → List Approver → Bool
has_voter user_id approvers = any (λ a. a.user_id == user_id) approvers

-- No user has two entries.
abbrev pub Distinct : List Approver → Type 0
Distinct [] = Unit
Distinct (a ∷ rest) = (has_voter a.user_id rest ≡ false) × Distinct rest

module _ (now voter : ℕ) (decision comment : String) where
  pub has_voter-record_vote :
      (approvers : List Approver) (j : ℕ)
      → has_voter j (record_vote now voter decision comment approvers)
        ≡ (voter == j || has_voter j approvers)
  unfolding record_vote
  has_voter-record_vote [] j = ground arith
  has_voter-record_vote (a ∷ rest) j = ground (arith, has_voter-record_vote rest j)

  pub record_vote-Distinct :
      (approvers : List Approver)
      → Distinct approvers
      → Distinct (record_vote now voter decision comment approvers)
  unfolding record_vote
  record_vote-Distinct [] d = (refl, tt)
  record_vote-Distinct (a ∷ rest) d =
      ground (arith, has_voter-record_vote rest a.user_id, record_vote-Distinct rest d.1)

  -- The vote is among the decisions.
  pub any_rejected-record_vote :
      (approvers : List Approver)
      → (decision == "rejected") ≡ true
      → any_rejected (record_vote now voter decision comment approvers) ≡ true
  unfolding record_vote any_rejected
  any_rejected-record_vote [] h = ground arith
  any_rejected-record_vote (a ∷ rest) h = ground (arith, any_rejected-record_vote rest h)
