-- ===== src/Storage/Approvals/Rows.antt =====
-- What a read by identifier finds after each statement on the table `approval_requests`.
use telekube.Base.{
  ℕ, String, false, ◌≡◌, refl, [], ◌∷◌, ◌++◌, ◌==◌, string_keyed, if◌then◌else◌, any, not_found,
  Result, ok, err, arith, eq_iff,
}
use telekube.Entity.Request.{ApprovalRequest}
use telekube.Storage.Approvals.{Table, get_by_id, write, update_rows, expire, expire_rows}

abbrev pub map_row :
    (ApprovalRequest → ApprovalRequest) → Result ApprovalRequest → Result ApprovalRequest
map_row f (ok r) = ok (f r)
map_row f (err e) = err e

-- The first row if there is one, the second otherwise.
abbrev pub or_row : Result ApprovalRequest → Result ApprovalRequest → Result ApprovalRequest
or_row (ok r) s = ok r
or_row (err e) s = s

pub id-get_by_id :
    (t : Table) (id : String) (r : ApprovalRequest) → get_by_id t id ≡ ok r → r.id ≡ id
unfolding get_by_id
id-get_by_id [] id r h = cc
id-get_by_id (q ∷ rest) id r h = ground (arith, eq_iff q.id id, id-get_by_id rest id r)

pub get_by_id-append :
    (t u : Table) (id : String) → get_by_id (t ++ u) id ≡ or_row (get_by_id t id) (get_by_id u id)
unfolding get_by_id
get_by_id-append [] u id = refl
get_by_id-append (r ∷ rest) u id = ground (arith, get_by_id-append rest u id)

-- An `UPDATE` changes what a read of its identifier finds, and no other.
pub get_by_id-update_rows :
    (t : Table) (req : ApprovalRequest) (id : String)
    → get_by_id (update_rows t req) id
      ≡ (if req.id == id then map_row (write req) (get_by_id t id) else get_by_id t id)
unfolding get_by_id update_rows write
get_by_id-update_rows [] req id = ground arith
get_by_id-update_rows (r ∷ rest) req id =
    ground (
      arith,
      eq_iff r.id id,
      eq_iff r.id req.id,
      eq_iff req.id id,
      get_by_id-update_rows rest req id,
    )

id-expire : (now : ℕ) (r : ApprovalRequest) → (expire now r).id ≡ r.id
unfolding expire
id-expire now r = ground arith

pub get_by_id-expire_rows :
    (t : Table) (now : ℕ) (id : String)
    → get_by_id (expire_rows t now) id ≡ map_row (expire now) (get_by_id t id)
unfolding get_by_id expire_rows
get_by_id-expire_rows [] now id = refl
get_by_id-expire_rows (r ∷ rest) now id =
    rw (id-expire now r) (ground (arith, get_by_id-expire_rows rest now id))

-- An identifier that no row has is not found.
pub get_by_id_fresh :
    (t : Table) (id : String) → any (λ r. r.id == id) t ≡ false → get_by_id t id ≡ err not_found
unfolding get_by_id
get_by_id_fresh [] id h = refl
get_by_id_fresh (r ∷ rest) id h = ground (arith, get_by_id_fresh rest id)
