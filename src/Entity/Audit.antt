-- ===== src/Entity/Audit.antt =====
-- internal/entity/audit.go: the entries of the audit trail. The values of `Details` are printed; `error` is the error whose text `Error` is, if any.
use telekube.Base.{ℕ, String, Option, List, Error}

pub record AuditEntry : Type 0 where
  pub id : String
  pub user_id : ℕ
  pub username : String
  pub action : String
  pub resource : String
  pub cluster : String
  pub namespace : String
  pub chat_id : ℕ
  pub chat_type : String
  pub status : String
  pub details : List (String × String)
  pub error : Option Error
  pub occurred_at : ℕ

abbrev pub audit_status_success : String
audit_status_success = "success"

abbrev pub audit_status_denied : String
audit_status_denied = "denied"

abbrev pub audit_status_error : String
audit_status_error = "error"
