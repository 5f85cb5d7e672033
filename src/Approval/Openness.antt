-- ===== src/Approval/Openness.antt =====
-- When a step of the approval workflow can let the action of a request through.
use telekube.Base.{
  ℕ, ◌+◌, ◌≤◌, Bool, true, false, String, ◌≡◌, refl, sym, ap, ◌∙◌, ◌≢◌, ◌||◌, ◌&&◌, Option, none,
  some, ◌==◌, string_keyed, arith, Result, ok, err, if◌then◌else◌, Bool-cases, inl, inr, eq_iff,
}
use telekube.Entity.Request.{ApprovalRequest, pending?, approved}
use telekube.Storage.Approvals.{get_by_id, write, expire, update_rows}
use telekube.Storage.Approvals.Rows.{get_by_id-update_rows}
use telekube.Approval.Workflow.{State, Op}
use telekube.Approval.Moves.{is_attach, RowStep, same, wrote, put_back, lapse, created}
use telekube.Approval.Held.{IsSoundState}
use telekube.Approval.Invariant.{LockStep, keeps, takes, frees}

-- The call that holds the lock is about to write the request.
abbrev pub holds_id : String → Option (Bool × ApprovalRequest) → Bool
holds_id id none = false
holds_id id (some (x, q)) = q.id == id

abbrev pub holds : State → String → Bool
holds s id = holds_id id s.held

-- The row is missing or pending.
abbrev pub is_open_row : Result ApprovalRequest → Bool
is_open_row (ok r) = pending? r.status
is_open_row (err e) = true

abbrev pub is_open : State → String → Bool
is_open s id = holds s id || is_open_row (get_by_id s.table id)

abbrev pub one : Bool → ℕ
one b = if b then 1 else 0

-- The step lets the action through.
abbrev pub lets_through : Option String → String → Bool
lets_through none id = false
lets_through (some k) id = k == id

pub true-ne-false : true ≢ false
true-ne-false e = cc

one-le : (b : Bool) → one b ≤ 1
one-le b = ground arith

open-one : (a b : Bool) → one b ≤ one (a || true)
open-one a b = ground arith

row-open : (s : State) (id : String) → one (is_open_row (get_by_id s.table id)) ≤ one (is_open s id)
row-open s id = ground arith

pub held-holds :
    (s : State) (id : String) (x : Bool) (q : ApprovalRequest)
    → s.held ≡ some (x, q)
    → q.id ≡ id
    → holds s id ≡ true
held-holds s id x q held named = rw held ((eq_iff q.id id).1 named)

lapse-open :
    (now : ℕ) (r : ApprovalRequest) (held : Bool)
    → one (pending? (expire now r).status) ≤ one (held || pending? r.status)
unfolding expire
lapse-open now r held = ground arith

-- Unless the request is put back by its message, its row is open only if it was open before.
pub RowStep-open :
    (s : State) (op : Op) (id : String) (b : Result ApprovalRequest)
    → RowStep s op id (get_by_id s.table id) b
    → is_attach id op ≡ false
    → one (is_open_row b) ≤ one (is_open s id)
unfolding expire
RowStep-open s op id b (same e) other = rw e (row-open s id)
RowStep-open s op id b (wrote x q r held named found e) other =
    rw (held-holds s id x q held named) (one-le (is_open_row b))
RowStep-open s op id b (put_back q r is found e new) other = absurd (true-ne-false (sym is ∙ other))
RowStep-open s op id b (lapse now r found e) other = rw (e, found) (lapse-open now r (holds s id))
RowStep-open s op id b (created r gone e new) other =
    rw gone (open-one (holds s id) (is_open_row b))

lets-frees :
    (x : Bool) (q : ApprovalRequest) (id : String)
    → lets_through (if x then some q.id else none) id ≡ (x && q.id == id)
lets-frees true q id = refl
lets-frees false q id = refl

keep-open :
    (held' held row' row : Bool)
    → held' ≡ held
    → one row' ≤ one (held || row)
    → 0 + one (held' || row') ≤ one (held || row) + 0
keep-open held' held row' row e le = ground arith

take-open :
    (hit held row : Bool) (n : ℕ)
    → (hit ≡ true → row ≡ true)
    → 0 + one (hit || row) ≤ one (held || row) + n
take-open hit held row n e = ground arith

free-closed :
    (x row' row : Bool) (n : ℕ)
    → (x ≡ true → row' ≡ false)
    → one (x && true) + one (false || row') ≤ one (true || row) + n
free-closed x row' row n e = ground arith

free-open :
    (row' held row : Bool)
    → one row' ≤ one (held || row)
    → 0 + one (false || row') ≤ one (held || row) + 0
free-open row' held row le = ground arith

and-false : (x a b : Bool) → one (x && false) + one a ≤ one b + 1
and-false x a b = ground arith

and-free :
    (x row' held row : Bool)
    → one row' ≤ one (held || row)
    → one (x && false) + one (false || row') ≤ one (held || row) + 0
and-free x row' held row le = ground arith

put-back : (a b : Bool) → 0 + one a ≤ one b + 1
put-back a b = ground arith

row_of :
    (s : State) (id : String) (q r : ApprovalRequest)
    → (q.id == id) ≡ true
    → get_by_id s.table q.id ≡ ok r
    → get_by_id s.table id ≡ ok r
row_of s id q r hit found = ap (get_by_id s.table) (sym ((eq_iff q.id id).0 hit)) ∙ found

after_write :
    (s : State) (id : String) (q r : ApprovalRequest)
    → (q.id == id) ≡ true
    → get_by_id s.table q.id ≡ ok r
    → q.status ≡ approved
    → is_open_row (get_by_id (update_rows s.table q) id) ≡ false
unfolding write
after_write s id q r hit found a =
    rw (get_by_id-update_rows s.table q id, hit, row_of s id q r hit found, a) refl

-- The action of a request is let through at most once while it is open, and that closes it; only the
-- update after its message opens it again.
pub LockStep-open :
    (s : State) (op : Op) (o : Option String) (s' : State) (id : String)
    → IsSoundState s
    → RowStep s op id (get_by_id s.table id) (get_by_id s'.table id)
    → LockStep s o s'
    → one (lets_through o id) + one (is_open s' id) ≤ one (is_open s id) + one (is_attach id op)
LockStep-open s op o s' id i row (keeps e k) = elim (Bool-cases (is_attach id op)) [
  | inl back ↦ rw (e, back) (put-back (is_open s' id) (is_open s id))
  | inr other ↦
      rw (e, other)
        (keep-open (holds s' id) (holds s id) _ _ (ap (holds_id id) k)
          (RowStep-open s op id _ row other))
]
LockStep-open s op o s' id i row (takes x q r e k t found open_now fits) =
    rw (e, ap (holds_id id) k, t)
      (take-open (q.id == id) (holds s id) (is_open_row (get_by_id s.table id))
        (one (is_attach id op)) (λ hit. rw (row_of s id q r hit found, open_now) refl))
LockStep-open s op o s' id i row (frees x q held k t e) = elim (Bool-cases (q.id == id)) [
  | inl hit ↦
      let fits = i.held x q held in
      rw (e, lets-frees x q id, ap (holds_id id) k, ap (holds_id id) held, hit, t)
        (free-closed x (is_open_row (get_by_id (update_rows s.table q) id))
          (is_open_row (get_by_id s.table id)) (one (is_attach id op))
          (λ yes_now. after_write s id q fits.row hit fits.found (fits.executes yes_now)))
  | inr miss ↦ elim (Bool-cases (is_attach id op)) [
    | inl back ↦ rw (e, lets-frees x q id, miss, back) (and-false x (is_open s' id) (is_open s id))
    | inr other ↦
        rw (e, lets-frees x q id, ap (holds_id id) k, miss, other)
          (and-free x _ (holds s id) _ (RowStep-open s op id _ row other))
  ]
]
