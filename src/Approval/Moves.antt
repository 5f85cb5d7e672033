-- ===== src/Approval/Moves.antt =====
-- What each step of the workflow does to the row of a request.
use telekube.Base.{
  ℕ, String, Bool, true, false, ◌≡◌, refl, sym, ap, ◌∙◌, Option, none, some, ◌==◌, string_keyed,
  arith, Error, not_found, Result, ok, err, Result-cases, Option-cases, inl, inr, ◌++◌, ◌∷◌, [],
  if◌then◌else◌, eq_iff, Bool-cases, get,
}
use telekube.Entity.Request.{ApprovalRequest, pending}
use telekube.Storage.Approvals.{
  Table, approval_repo, stored, get_by_id, write, update_rows, expire, expire_rows,
}
use telekube.Storage.Approvals.Rows.{
  or_row, get_by_id-append, get_by_id-update_rows, get_by_id-expire_rows, get_by_id_fresh,
}
use telekube.Storage.Roles.{to_seconds?}
use telekube.Approval.Manager.{
  Config, ApprovalInput, Rule, submit_if_required, decision_on, cancellation_of, expiry_tick,
  attach_message, new_request,
}
use telekube.Approval.Workflow.{State, Op, submits, attaches, decides, cancels, writes, ticks, step}
use telekube.Approval.Soundness.{IsNew}
use telekube.Approval.Calls.{Submits, submit_if_required-cases}

-- The step updates the request after its message.
abbrev pub is_attach : String → Op → Bool
is_attach id (attaches i sent chat) = i == id
is_attach id (submits now fresh input) = false
is_attach id (decides now i user decision comment) = false
is_attach id (cancels now i user) = false
is_attach id writes = false
is_attach id (ticks now) = false

-- What happened to the row of an identifier: nothing, the `Update` of the call that holds the lock, the
-- update after a message, the expiry, or the submission.
pub data RowStep (s : State) (op : Op) (j : String) (a : Result ApprovalRequest)
    (b : Result ApprovalRequest) : Type 0 where
  same : b ≡ a → RowStep s op j a b
  wrote :
      (x : Bool) (q r : ApprovalRequest)
      → s.held ≡ some (x, q)
      → q.id ≡ j
      → a ≡ ok r
      → b ≡ ok (write q r)
      → RowStep s op j a b
  put_back :
      (q r : ApprovalRequest)
      → is_attach j op ≡ true
      → a ≡ ok r
      → b ≡ ok (write q r)
      → IsNew (write q r)
      → RowStep s op j a b
  lapse : (now : ℕ) (r : ApprovalRequest) → a ≡ ok r → b ≡ ok (expire now r) → RowStep s op j a b
  created : (r : ApprovalRequest) → a ≡ err not_found → b ≡ ok r → IsNew r → RowStep s op j a b

-- A copy that a call of `CheckAndSubmit` holds is the request as it was submitted.
pub record IsCopy (id : String) (req : ApprovalRequest) : Type 0 where
  pub named : req.id ≡ id
  pub is_pending : req.status ≡ pending
  pub no_votes : req.approvers ≡ []
  pub unresolved : req.resolved_at ≡ none

abbrev pub AreCopies : State → Type 0
AreCopies s = (id : String) (req : ApprovalRequest) → get s.sending id ≡ some req → IsCopy id req

get_by_id-err : (t : Table) (id : String) (e : Error) → get_by_id t id ≡ err e → e ≡ not_found
unfolding get_by_id
get_by_id-err [] id e h = ground arith
get_by_id-err (r ∷ rest) id e h = ground (arith, get_by_id-err rest id e)

get_by_id-stored :
    (t : Table) (req : ApprovalRequest) (j : String)
    → get_by_id (t ++ stored req ∷ []) j
      ≡ or_row (get_by_id t j) (if req.id == j then ok (stored req) else err not_found)
unfolding get_by_id
get_by_id-stored t req j = get_by_id-append t (stored req ∷ []) j

or_row-none :
    (a : Result ApprovalRequest)
    → ((e : Error) → a ≡ err e → e ≡ not_found)
    → or_row a (err not_found) ≡ a
or_row-none (ok r) only_missing = refl
or_row-none (err e) only_missing = ap err (sym (only_missing e refl))

RowStep-submitted :
    (cfg : Config) (s : State) (now : ℕ) (fresh : String) (input : ApprovalInput) (op : Op)
    (j : String) (req : ApprovalRequest) (t : Table) (rule : Rule)
    → Submits cfg s.table now fresh input req t rule
    → RowStep s op j (get_by_id s.table j) (get_by_id t j)
unfolding new_request
RowStep-submitted cfg s now fresh input op j req t rule c =
    let after = ap (λ u. get_by_id u j) c.table ∙ get_by_id-stored s.table req j in
    let named : req.id ≡ fresh = ap (λ (r : ApprovalRequest). r.id) c.request in
    elim (Bool-cases (fresh == j)) [
      | inl hit ↦
          let gone : get_by_id s.table j ≡ err not_found =
            ap (get_by_id s.table) (sym ((eq_iff fresh j).0 hit))
            ∙ get_by_id_fresh s.table fresh c.unused in
          created (stored req) gone (after ∙ (rw (gone, named, hit) refl))
            (rw c.request (record { is_pending = refl; no_votes = refl; unresolved = refl }))
      | inr miss ↦
          same (
            after
            ∙ (rw (named, miss) (or_row-none (get_by_id s.table j) (get_by_id-err s.table j))))
    ]

RowStep-submits :
    (cfg : Config) (s : State) (now : ℕ) (fresh : String) (input : ApprovalInput) (op : Op)
    (j : String) (o : Option ApprovalRequest) (t : Table)
    → submit_if_required approval_repo cfg s.table now fresh input ≡ ok (o, t)
    → RowStep s op j (get_by_id s.table j) (get_by_id t j)
RowStep-submits cfg s now fresh input op j o t h =
    elim (submit_if_required-cases cfg s.table now fresh input o t h) [
      | inl (_, unchanged) ↦ same (ap (λ u. get_by_id u j) unchanged)
      | inr (rule, req, _, c) ↦ RowStep-submitted cfg s now fresh input op j req t rule c
    ]

RowStep-attaches :
    (s : State) (id : String) (sent : Option ℕ) (chat : ℕ) (j : String) (req : ApprovalRequest)
    → IsCopy id req
    → RowStep s
        (attaches id sent chat)
        j
        (get_by_id s.table j)
        (get_by_id (attach_message approval_repo s.table req sent chat) j)
unfolding attach_message approval_repo write
RowStep-attaches s id none chat j req c = same refl
RowStep-attaches s id (some m) chat j req c =
    let q : ApprovalRequest = record req { message_id = m; chat_id = chat } in
    let row = get_by_id-update_rows s.table q j in
    elim (Bool-cases (req.id == j)) [
      | inl hit ↦ elim (Result-cases (get_by_id s.table j)) [
        | inl (r, found) ↦
            put_back q r ((eq_iff id j).1 (sym c.named ∙ (eq_iff req.id j).0 hit)) found
              (row ∙ (rw (hit, found) refl))
              (record {
                is_pending = c.is_pending;
                no_votes = c.no_votes;
                unresolved = ap to_seconds? c.unresolved;
              })
        | inr (e, missing) ↦ same (row ∙ (rw (hit, missing) refl))
      ]
      | inr miss ↦ same (row ∙ (rw miss refl))
    ]

RowStep-writes :
    (s : State) (x : Bool) (q : ApprovalRequest) (j : String)
    → s.held ≡ some (x, q)
    → RowStep s writes j (get_by_id s.table j) (get_by_id (update_rows s.table q) j)
RowStep-writes s x q j held =
    let row = get_by_id-update_rows s.table q j in
    elim (Bool-cases (q.id == j)) [
      | inl hit ↦ elim (Result-cases (get_by_id s.table j)) [
        | inl (r, found) ↦
            wrote x q r held ((eq_iff q.id j).0 hit) found (row ∙ (rw (hit, found) refl))
        | inr (e, missing) ↦ same (row ∙ (rw (hit, missing) refl))
      ]
      | inr miss ↦ same (row ∙ (rw miss refl))
    ]

RowStep-ticks :
    (s : State) (now : ℕ) (op : Op) (j : String)
    → RowStep s op j (get_by_id s.table j) (get_by_id (expire_rows s.table now) j)
RowStep-ticks s now op j = elim (Result-cases (get_by_id s.table j)) [
  | inl (r, e) ↦ lapse now r e (get_by_id-expire_rows s.table now j ∙ (rw e refl))
  | inr (e, h) ↦ same (get_by_id-expire_rows s.table now j ∙ (rw h refl))
]

-- Every step does one of these to every row.
pub step-RowStep :
    (cfg : Config) (s : State) (op : Op) (j : String)
    → AreCopies s
    → RowStep s op j (get_by_id s.table j) (get_by_id (step cfg s op).1.table j)
unfolding step
step-RowStep cfg s (submits now fresh input) j copies =
    elim (Result-cases (submit_if_required approval_repo cfg s.table now fresh input)) [
      | inl ((none, t), e) ↦
          rw (step, e) (RowStep-submits cfg s now fresh input (submits now fresh input) j none t e)
      | inl ((some req, t), e) ↦
          rw (step, e)
            (RowStep-submits cfg s now fresh input (submits now fresh input) j (some req) t e)
      | inr (x, e) ↦ rw (step, e) (same refl)
    ]
step-RowStep cfg s (attaches id sent chat) j copies = elim (Option-cases (get s.sending id)) [
  | inl none_there ↦ rw (step, none_there) (same refl)
  | inr (req, there) ↦
      rw (step, there) (RowStep-attaches s id sent chat j req (copies id req there))
]
step-RowStep cfg s (decides now id user decision comment) j copies = elim (Option-cases s.held) [
  | inl free ↦
      elim (Result-cases (decision_on approval_repo s.table now id user decision comment)) [
        | inl (q, e) ↦ rw (step, free, e) (same refl)
        | inr (x, e) ↦ rw (step, free, e) (same refl)
      ]
  | inr (q, taken) ↦ rw (step, taken) (same refl)
]
step-RowStep cfg s (cancels now id user) j copies = elim (Option-cases s.held) [
  | inl free ↦ elim (Result-cases (cancellation_of approval_repo s.table now id user)) [
    | inl (q, e) ↦ rw (step, free, e) (same refl)
    | inr (x, e) ↦ rw (step, free, e) (same refl)
  ]
  | inr (q, taken) ↦ rw (step, taken) (same refl)
]
step-RowStep cfg s writes j copies = elim (Option-cases s.held) [
  | inl free ↦ rw (step, free) (same refl)
  | inr ((x, q), held) ↦
      rw (step, held)
        (unfold approval_repo in RowStep-writes (record s { held = some (x, q) }) x q j refl)
]
step-RowStep cfg s (ticks now) j copies =
    unfold expiry_tick approval_repo in RowStep-ticks s now (ticks now) j
