-- ===== src/Storage/Audit.antt =====
-- internal/storage/sqlite/audit_repo.go and internal/storage/postgres/audit_repo.go: the table `audit_log`.
-- `like` is the test of LIKE on a text and a pattern, and `round`
-- what a column of type TIMESTAMPTZ keeps of a time; how a database sorts the rows is an argument too. The pages are small enough for their offsets.
pub mod Paging
use Prim.Native.String.{◌++◌ as concat}
use telekube.Base.{
  ℕ, ◌+◌, ◌-◌, ◌*◌, String, Bool, true, false, Option, none, some, List, [], ◌∷◌, ◌++◌, ◌==◌, Keyed,
  nat_keyed, string_keyed, ltb, leb, ◌&&◌, if◌then◌else◌, any, select, length, take, drop, message,
  Result, ok, err,
}
use telekube.Entity.Audit.{AuditEntry}

abbrev pub Table : Type 0
Table = List AuditEntry

-- A page that is not positive, and a size that is not, is 0 here.
pub record AuditFilter : Type 0 where
  pub user_id : Option ℕ
  pub action : Option String
  pub cluster : Option String
  pub namespace : Option String
  pub status : Option String
  pub from : Option ℕ
  pub to : Option ℕ
  pub page : ℕ
  pub page_size : ℕ

unfoldable pub create : Table → AuditEntry → Result Table
create t e =
    if any (λ r. r.id == e.id) t
    then err (message "inserting audit entry: UNIQUE constraint failed: audit_log.id")
    else ok (t ++ e ∷ [])

-- A condition that is only there if the field is.
abbrev pub holds_if : {A : Type 0} → Option A → (A → Bool) → Bool
holds_if none test = true
holds_if (some a) test = test a

-- The conditions but the one on the action, which the databases test in their own way.
unfoldable pub passes : AuditFilter → (String → String → Bool) → AuditEntry → Bool
passes f is_action e =
    holds_if f.user_id (λ id. e.user_id == id)
    && holds_if f.action (λ a. is_action e.action a)
    && holds_if f.cluster (λ c. e.cluster == c)
    && holds_if f.namespace (λ ns. e.namespace == ns)
    && holds_if f.status (λ s. e.status == s)
    && holds_if f.from (λ t. leb t e.occurred_at)
    && holds_if f.to (λ t. leb e.occurred_at t)

abbrev pub page_of : AuditFilter → ℕ
page_of f = if ltb f.page 1 then 1 else f.page

abbrev pub size_of : AuditFilter → ℕ
size_of f = if ltb f.page_size 1 then 20 else if ltb 100 f.page_size then 100 else f.page_size

module _ (order_by : List AuditEntry → List AuditEntry) where
  -- The rows of the page, and the number of all. `order_by` is ORDER BY occurred_at DESC as the database
  -- carries it out in this query, which leaves the order of entries of one time open.
  unfoldable pub list_where :
      (String → String → Bool) → Table → AuditFilter → Result (List AuditEntry × ℕ)
  unfolding passes
  list_where is_action t f =
      let found = select (passes f is_action) t in
      ok (take (size_of f) (drop ((page_of f - 1) * size_of f) (order_by found)), length found)

  unfoldable pub list : Table → AuditFilter → Result (List AuditEntry × ℕ)
  unfolding list_where
  list t f = list_where (λ action a. action == a) t f

-- `action LIKE $n`, of the action with a percent sign behind it.
abbrev pub is_prefixed : (String → String → Bool) → String → String → Bool
is_prefixed like action a = like action (concat a "%")

unfoldable pub list_postgres :
    (List AuditEntry → List AuditEntry)
    → (String → String → Bool)
    → Table
    → AuditFilter
    → Result (List AuditEntry × ℕ)
unfolding list_where
list_postgres order_by like t f = list_where order_by (is_prefixed like) t f

unfoldable pub create_postgres : (ℕ → ℕ) → Table → AuditEntry → Result Table
create_postgres round t e =
    if any (λ r. r.id == e.id) t
    then err (message "create audit entry: duplicate key value violates unique constraint")
    else ok (t ++ record e { occurred_at = round e.occurred_at } ∷ [])
