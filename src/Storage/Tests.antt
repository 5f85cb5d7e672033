-- ===== src/Storage/Tests.antt =====
-- Runs of the repositories, and the theorems at concrete inputs.
use telekube.Base.{
  if◌then◌else◌, leb, String, some, ◌==◌, string_keyed, result, ℕ, ◌*◌, ◌/◌, true, ◌≡◌, refl, none,
  List, [], ◌∷◌, string_keyed, nat_keyed, arith,
}
use telekube.Entity.Role.{UserRoleBinding}
use telekube.Entity.Request.{ApprovalRequest, pending}
use telekube.Storage.Roles.{RbacDb, to_seconds}
use telekube.Storage.Approvals.{approval_repo as sqlite_repo}
use telekube.Storage.Approvals.Refinement.{Op, creates, expires, perform_all, view, apply_all}
use telekube.Entity.Audit.{AuditEntry}
use telekube.Storage.Audit.{AuditFilter, passes, list, list_postgres, is_prefixed}
use mathlib.Core.List.{Permᴰ}
use telekube.Storage.Audit.Paging.{IsOrdered, IsPage, list-IsPage}
use telekube.Storage.Postgres.Approvals.{approval_repo, noop_approval_repo}
use telekube.Storage.Postgres.Agreement.{perform_all-apply_all, perform_all-agrees}

abbrev request : ApprovalRequest
request = record {
  id = "A";
  requester_id = 2;
  requester_name = "bob";
  action = "argocd.apps.sync";
  resource = "shop";
  cluster = "prod-1";
  namespace = "";
  status = pending;
  approvers = [];
  required_approvals = 1;
  created_at = 5_000_000_000;
  expires_at = 9_000_000_000;
  resolved_at = none;
  resolved_by = none;
  chat_id = 0;
  message_id = 0;
}

abbrev ops : List Op
ops = creates request ∷ expires 10_000_000_000 ∷ []

abbrev to_micros : ℕ → ℕ
to_micros t = t / 1_000 * 1_000

-- Without a server, nothing is found that was created.
noop_finds_nothing : view noop_approval_repo (perform_all noop_approval_repo tt ops) "A" ≡ none
unfolding view perform_all noop_approval_repo
noop_finds_nothing = refl

perform_all-apply_all_example :
    (view sqlite_repo (perform_all sqlite_repo [] ops)
      ≡ apply_all to_seconds (view sqlite_repo []) ops)
    × (view (approval_repo to_micros) (perform_all (approval_repo to_micros) [] ops)
        ≡ apply_all to_micros (view (approval_repo to_micros) []) ops)
perform_all-apply_all_example = perform_all-apply_all to_micros ops []

perform_all-agrees_example :
    view sqlite_repo (perform_all sqlite_repo [] ops)
    ≡ view (approval_repo to_micros) (perform_all (approval_repo to_micros) [] ops)
perform_all-agrees_example =
    perform_all-agrees to_micros ops [] (λ n whole. omega arith)
      (((refl, (refl, tt)), ((refl, tt), tt)))

abbrev binding : UserRoleBinding
binding = record { id = "B"; user_id = 2; role_name = "operator"; expires_at = none }

abbrev empty_db : RbacDb
empty_db = record { users = []; roles = []; bindings = [] }

abbrev logged : String → ℕ → AuditEntry
logged id at = record {
  id = id;
  user_id = 2;
  username = "bob";
  action = "pod.restart";
  resource = "pod/web";
  cluster = "prod-1";
  namespace = "shop";
  chat_id = 0;
  chat_type = "";
  status = "success";
  details = [];
  error = none;
  occurred_at = at;
}

abbrev entries : List AuditEntry
entries = logged "A" 1 ∷ logged "B" 3 ∷ logged "C" 2 ∷ []

abbrev filter : AuditFilter
filter = record {
  user_id = none;
  action = some "pod.restart";
  cluster = none;
  namespace = none;
  status = none;
  from = none;
  to = none;
  page = 0;
  page_size = 2;
}

-- A database that puts the later row first.
abbrev insert_row : AuditEntry → List AuditEntry → List AuditEntry
insert_row e [] = e ∷ []
insert_row e (d ∷ rest) =
    if leb d.occurred_at e.occurred_at then e ∷ d ∷ rest else d ∷ insert_row e rest

abbrev sorts : List AuditEntry → List AuditEntry
sorts [] = []
sorts (e ∷ rest) = insert_row e (sorts rest)

entries-IsOrdered : IsOrdered entries (sorts entries)
entries-IsOrdered = record {
  newest_first = ((omega arith, (omega arith, tt)), ((omega arith, tt), (tt, tt)));
  same_rows = Permᴰ.trans (Permᴰ.cons refl (Permᴰ.swap refl refl)) (Permᴰ.swap refl refl);
}

list-IsPage_example :
    IsPage filter (λ action a. action == a) entries (list sorts entries filter)
    × IsPage filter
        (is_prefixed (λ text pattern. true))
        entries
        (list_postgres sorts (λ text pattern. true) entries filter)
unfolding passes
list-IsPage_example =
    list-IsPage sorts (λ text pattern. true) entries filter entries-IsOrdered entries-IsOrdered

first_page : result ([], 0) (list sorts entries filter) ≡ (logged "B" 3 ∷ logged "C" 2 ∷ [], 3)
unfolding list
first_page = refl
