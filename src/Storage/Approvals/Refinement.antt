-- ===== src/Storage/Approvals/Refinement.antt =====
-- What both repositories of approval requests promise: a map from identifiers to requests, in which the
-- times are kept as the columns keep them.
use std.Path.{fun_ext}
use telekube.Base.{
  ℕ, String, Bool, true, false, ◌&&◌, ◌≡◌, refl, ap, ◌∙◌, Option, none, some, List, [], ◌∷◌, ◌++◌,
  ◌==◌, string_keyed, if◌then◌else◌, ltb, any, Bool-cases, inl, inr, Result, ok, err, result, arith,
  eq_iff, Result-cases, Error,
}
use telekube.Entity.Request.{ApprovalRequest, expired, pending?}
use telekube.Approval.Repository.{ApprovalRepository}
use telekube.Storage.Roles.{to_seconds}
use telekube.Storage.Approvals.{
  Table, get_by_id, update_rows, expire_rows, create, update, expire_old, approval_repo, write,
  expire, stored,
}
use telekube.Storage.Approvals.Rows.{
  map_row, get_by_id-append, get_by_id-update_rows, get_by_id-expire_rows,
}

-- The calls that change a repository.
pub data Op : Type 0 where
  creates : ApprovalRequest → Op
  updates : ApprovalRequest → Op
  expires : ℕ → Op

abbrev pub to_option : Result ApprovalRequest → Option ApprovalRequest
to_option answer = elim answer [ err e ↦ none | ok r ↦ some r ]

module _ {S : Type 0} (repo : ApprovalRepository S) where
  -- A call that fails changes nothing.
  unfoldable pub perform : S → Op → S
  perform s (creates req) = result s (repo.create s req)
  perform s (updates req) = result s (repo.update s req)
  perform s (expires now) = elim (repo.expire_old s now) [ err e ↦ s | ok r ↦ r.1 ]

  unfoldable pub perform_all : S → List Op → S
  perform_all s [] = s
  perform_all s (op ∷ rest) = perform_all (perform s op) rest

  unfoldable pub view : S → String → Option ApprovalRequest
  view s id = to_option (repo.get_by_id s id)

abbrev pub Store : Type 0
Store = String → Option ApprovalRequest

abbrev pub changed :
    (ApprovalRequest → ApprovalRequest) → Option ApprovalRequest → Option ApprovalRequest
changed f none = none
changed f (some r) = some (f r)

abbrev pub added : ApprovalRequest → Option ApprovalRequest → Option ApprovalRequest
added row none = some row
added row (some r) = some r

-- The fields that an update replaces.
abbrev pub resolved_as : Option ℕ → ApprovalRequest → ApprovalRequest → ApprovalRequest
resolved_as at req r = record r {
  status = req.status;
  approvers = req.approvers;
  resolved_at = at;
  resolved_by = req.resolved_by;
  message_id = req.message_id;
}

abbrev pub aged : ℕ → ApprovalRequest → ApprovalRequest
aged now r =
    if pending? r.status && ltb r.expires_at now
    then record r { status = expired; resolved_at = some now }
    else r

module _ (round : ℕ → ℕ) where
  abbrev pub kept? : Option ℕ → Option ℕ
  kept? none = none
  kept? (some t) = some (round t)

  abbrev pub new_request : ApprovalRequest → ApprovalRequest
  new_request req = record req {
    created_at = round req.created_at;
    expires_at = round req.expires_at;
    resolved_at = none;
    resolved_by = none;
  }

  abbrev pub updated : ApprovalRequest → ApprovalRequest → ApprovalRequest
  updated req = resolved_as (kept? req.resolved_at) req

  unfoldable pub apply : Store → Op → Store
  apply store (creates req) id =
      if req.id == id then added (new_request req) (store id) else store id
  apply store (updates req) id = if req.id == id then changed (updated req) (store id) else store id
  apply store (expires now) id = changed (aged (round now)) (store id)

  unfoldable pub apply_all : Store → List Op → Store
  apply_all store [] = store
  apply_all store (op ∷ rest) = apply_all (apply store op) rest

-- Each call of the repository does to what its reads find what the map does.
unfoldable pub Refines : {S : Type 0} → ApprovalRepository S → (ℕ → ℕ) → Type 0
Refines {S} repo round =
    (s : S) (op : Op) → view repo (perform repo s op) ≡ apply round (view repo s) op

pub perform_all-view :
    {S : Type 0} (repo : ApprovalRepository S) (round : ℕ → ℕ) (ops : List Op) (s : S)
    → Refines repo round
    → view repo (perform_all repo s ops) ≡ apply_all round (view repo s) ops
unfolding perform_all apply_all Refines
perform_all-view repo round [] s refines = refl
perform_all-view repo round (op ∷ rest) s refines =
    perform_all-view repo round rest (perform repo s op) refines
    ∙ ap (λ v. apply_all round v rest) (refines s op)

pub found :
    (t : Table) (id : String)
    → any (λ r. r.id == id) t ≡ true
    → (r : ApprovalRequest) × (get_by_id t id ≡ ok r)
unfolding get_by_id
found [] id h = absurd cc
found (r ∷ rest) id h = elim (Bool-cases (r.id == id)) [
  | inl same ↦ (r, rw same refl)
  | inr other ↦ let later = found rest id (ground arith) in (later.0, rw other later.1)
]

-- Of a row that is added unless its identifier is taken.
pub get_by_id-insert :
    (t : Table) (row : ApprovalRequest) (id : String)
    → to_option (get_by_id (if any (λ r. r.id == row.id) t then t else t ++ row ∷ []) id) ≡ (
        if row.id == id then added row (to_option (get_by_id t id)) else to_option (get_by_id t id))
unfolding get_by_id
get_by_id-insert t row id = elim (Bool-cases (any (λ r. r.id == row.id) t)) [
  | inl known ↦ let at = found t row.id known in rw known (ground (arith, eq_iff row.id id, at.1))
  | inr new ↦
      rw (new, get_by_id-append t (row ∷ []) id)
        (elim (Result-cases (get_by_id t id)) [
          | inl (r, e) ↦ rw e (ground arith)
          | inr (x, e) ↦ rw e (ground arith)
        ])
]

pub to_option-map_row :
    (f : ApprovalRequest → ApprovalRequest) (answer : Result ApprovalRequest)
    → to_option (map_row f answer) ≡ changed f (to_option answer)
to_option-map_row f (ok r) = refl
to_option-map_row f (err e) = refl

pub result_if :
    (b : Bool) (t u : Table) (e : Error)
    → result t (if b then err e else ok u) ≡ (if b then t else u)
result_if b t u e = ground arith

pub to_option_if :
    (b : Bool) (f : ApprovalRequest → ApprovalRequest) (answer : Result ApprovalRequest)
    → to_option (if b then map_row f answer else answer)
      ≡ (if b then changed f (to_option answer) else to_option answer)
to_option_if true f answer = to_option-map_row f answer
to_option_if false f answer = refl

-- The SQLite repository keeps whole seconds.
pub approval_repo-Refines : Refines approval_repo to_seconds
unfolding Refines perform view apply approval_repo create update update_rows expire_old expire_rows
    write expire
approval_repo-Refines t (creates req) = fun_ext (λ id.
    rw (result_if (any (λ r. r.id == req.id) t) t (t ++ stored req ∷ []) _)
      (get_by_id-insert t (stored req) id))
approval_repo-Refines t (updates req) = fun_ext (λ id.
    rw (get_by_id-update_rows t req id) (to_option_if (req.id == id) (write req) (get_by_id t id)))
approval_repo-Refines t (expires now) =
    fun_ext
      (λ id. rw (get_by_id-expire_rows t now id) (to_option-map_row (expire now) (get_by_id t id)))
