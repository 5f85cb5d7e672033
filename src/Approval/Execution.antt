-- ===== src/Approval/Execution.antt =====
-- Which actions the workflow lets through, how often, and that a resolved request stays.
use telekube.Base.{
  ℕ, ◌+◌, ◌≤◌, Bool, String, true, false, ◌≡◌, refl, sym, ap, ◌∙◌, ◌≢◌, ◌||◌, none, some, Option,
  List, [], ◌∷◌, ◌==◌, string_keyed, arith, Result, ok, err, not_found, any, count_if,
}
use telekube.Entity.Request.{ApprovalRequest, Status, pending, pending?}
use telekube.Storage.Approvals.{get_by_id, expire}
use telekube.Approval.Manager.{Config}
use telekube.Approval.Workflow.{State, Op, step, run, log}
use telekube.Approval.Moves.{
  is_attach, RowStep, same, wrote, put_back, lapse, created, step-RowStep,
}
use telekube.Approval.Held.{IsSoundState}
use telekube.Approval.Invariant.{step-LockStep, step-IsSoundState}
use telekube.Approval.Openness.{
  holds, is_open, is_open_row, one, lets_through, LockStep-open, held-holds, true-ne-false,
}

step_open :
    (cfg : Config) (s : State) (op : Op) (id : String)
    → IsSoundState s
    → one (lets_through (step cfg s op).0 id) + one (is_open (step cfg s op).1 id)
      ≤ one (is_open s id) + one (is_attach id op)
step_open cfg s op id i =
    LockStep-open s op (step cfg s op).0 (step cfg s op).1 id i (step-RowStep cfg s op id i.copies)
      (step-LockStep cfg s op i.table)

abbrev pub times : String → List String → ℕ
times id ids = count_if (λ k. k == id) ids

times-log :
    (id : String) (o : Option String) (ids : List String)
    → times id (log o ids) ≡ one (lets_through o id) + times id ids
times-log id none ids = omega arith
times-log id (some k) ids = ground arith

count-cons :
    (id : String) (op : Op) (ops : List Op)
    → count_if (is_attach id) (op ∷ ops) ≡ one (is_attach id op) + count_if (is_attach id) ops
count-cons id op ops = ground arith

-- However the calls interleave, the action of a request is let through at most once, if the request is
-- open at first, and once more for every update that follows its message: a request is open while its
-- row is missing or pending, or a decision on it is being written.
pub run_at_most :
    (cfg : Config) (s : State) (ops : List Op) (id : String)
    → IsSoundState s
    → times id (run cfg s ops).0 ≤ one (is_open s id) + count_if (is_attach id) ops
unfolding run
run_at_most cfg s [] id i = omega arith
run_at_most cfg s (op ∷ ops) id i = omega (
  arith,
  times-log id (step cfg s op).0 (run cfg (step cfg s op).1 ops).0,
  count-cons id op ops,
  step_open cfg s op id i,
  run_at_most cfg (step cfg s op).1 ops id (step-IsSoundState cfg s op i),
)

expire_final : (now : ℕ) (r : ApprovalRequest) → pending? r.status ≡ false → expire now r ≡ r
unfolding expire
expire_final now r h = ground arith

or_true : (b : Bool) → (b || true) ≡ true
or_true b = ground arith

or_false : (a b : Bool) → (a || b) ≡ false → b ≡ false
or_false a b h = ground arith

held-open : (s : State) (id : String) → holds s id ≡ true → is_open s id ≡ true
held-open s id h = ground arith

missing_open :
    (s : State) (id : String) → get_by_id s.table id ≡ err not_found → is_open s id ≡ true
missing_open s id gone = rw gone (or_true (holds s id))

row_closed :
    (s : State) (id : String) (r : ApprovalRequest)
    → get_by_id s.table id ≡ ok r
    → is_open s id ≡ false
    → pending? r.status ≡ false
row_closed s id r found closed =
    or_false (holds s id) (pending? r.status)
      (ap (λ a. holds s id || is_open_row a) (sym found) ∙ closed)

unpending : (x : Status) → x ≢ pending → (false || pending? x) ≡ false
unpending x h = ground arith

RowStep-final :
    (s : State) (op : Op) (id : String) (b : Result ApprovalRequest)
    → RowStep s op id (get_by_id s.table id) b
    → is_open s id ≡ false
    → is_attach id op ≡ false
    → b ≡ get_by_id s.table id
RowStep-final s op id b (same e) closed other = e
RowStep-final s op id b (wrote x q r held named found e) closed other =
    absurd (true-ne-false (sym (held-open s id (held-holds s id x q held named)) ∙ closed))
RowStep-final s op id b (put_back q r is found e new) closed other =
    absurd (true-ne-false (sym is ∙ other))
RowStep-final s op id b (lapse now r found e) closed other =
    e ∙ ap ok (expire_final now r (row_closed s id r found closed)) ∙ sym found
RowStep-final s op id b (created r gone e new) closed other =
    absurd (true-ne-false (sym (missing_open s id gone) ∙ closed))

zero_one : (b : Bool) → one b ≤ 0 → b ≡ false
zero_one b le = ground arith

sums : (l o a b : ℕ) → a ≡ 0 → b ≡ 0 → l + o ≤ a + b → o ≤ 0
sums l o a b e f le = omega (arith, e, f, le)

step_closed :
    (cfg : Config) (s : State) (op : Op) (id : String)
    → IsSoundState s
    → is_open s id ≡ false
    → is_attach id op ≡ false
    → is_open (step cfg s op).1 id ≡ false
step_closed cfg s op id i closed other =
    zero_one (is_open (step cfg s op).1 id)
      (sums _ _ _ _ (ap one closed) (ap one other) (step_open cfg s op id i))

run_closed :
    (cfg : Config) (s : State) (ops : List Op) (id : String)
    → IsSoundState s
    → is_open s id ≡ false
    → any (is_attach id) ops ≡ false
    → get_by_id (run cfg s ops).1.table id ≡ get_by_id s.table id
unfolding run
run_closed cfg s [] id i closed others = refl
run_closed cfg s (op ∷ ops) id i closed others =
    let other : is_attach id op ≡ false = ground arith in
    run_closed cfg (step cfg s op).1 ops id (step-IsSoundState cfg s op i)
      (step_closed cfg s op id i closed other) (ground arith)
    ∙ RowStep-final s op id _ (step-RowStep cfg s op id i.copies) closed other

-- A resolved request that no call is about to write stays as it is, whatever is called afterwards and
-- however the calls interleave, as long as no update follows its message.
pub run_final :
    (cfg : Config) (s : State) (ops : List Op) (id : String) (r : ApprovalRequest)
    → IsSoundState s
    → get_by_id s.table id ≡ ok r
    → r.status ≢ pending
    → holds s id ≡ false
    → any (is_attach id) ops ≡ false
    → get_by_id (run cfg s ops).1.table id ≡ ok r
run_final cfg s ops id r i found resolved free others =
    run_closed cfg s ops id i (rw (free, found) (unpending r.status resolved)) others ∙ found
