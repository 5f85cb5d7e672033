-- ===== src/Middleware/Audit.antt =====
-- internal/bot/middleware/audit.go and recovery.go: what is logged of an update whose handler has run, and
-- what becomes of a panic. The user is the one that auth.go has put into the context.
pub mod Trail
mod Tests
use Prim.Native.String.{count, ◌++◌ as concat}
use telekube.Base.{
  ℕ, zero, suc, String, Bool, true, false, Option, none, some, [], ◌==◌, string_keyed, leb,
  if◌then◌else◌, Error,
}
use telekube.Entity.Audit.{AuditEntry, audit_status_success, audit_status_error}
use telekube.Entity.User.{User}
use telekube.AuditLog.Logger.{AuditLogger, log}

abbrev pub max_action_runes : ℕ
max_action_runes = 100

pub data ChatType : Type 0 where
  private_chat : ChatType
  group : ChatType
  super_group : ChatType
  channel : ChatType

-- The key and the data of a pressed button.
pub record Callback : Type 0 where
  pub unique : String
  pub payload : String

-- telebot's context: a missing message has no text.
pub record Update : Type 0 where
  pub user : Option User
  pub callback : Option Callback
  pub text : String
  pub chat : Option (ℕ × ChatType)

-- How a handler ends.
pub data Outcome : Type 0 where
  returned : Option Error → Outcome
  panicked : Outcome

unfoldable pub first_runes : ℕ → String → String
first_runes zero s = String.[]
first_runes (suc n) String.[] = String.[]
first_runes (suc n) (String.◌∷◌ c s) = String.◌∷◌ c (first_runes n s)

unfoldable pub truncate_utf8 : String → ℕ → String
unfolding first_runes
truncate_utf8 s max_runes = if leb (count s) max_runes then s else first_runes max_runes s

unfoldable pub action_of : Update → String
unfolding truncate_utf8
action_of u = elim u.callback [
  | some c ↦
      let action = concat "callback:" c.unique in
      if c.payload == "" then action else concat action (concat ":" (truncate_utf8 c.payload 60))
  | none ↦ if u.text == "" then "unknown" else truncate_utf8 u.text max_action_runes
]

abbrev pub type_name : ChatType → String
type_name private_chat = "private"
type_name group = "group"
type_name super_group = "group"
type_name channel = "channel"

unfoldable pub chat_type_of : Update → String
chat_type_of u = elim u.chat [ none ↦ "private" | some (id, kind) ↦ type_name kind ]

unfoldable pub chat_id_of : Update → ℕ
chat_id_of u = elim u.chat [ none ↦ 0 | some (id, kind) ↦ id ]

unfoldable pub status_of : Option Error → String
status_of none = audit_status_success
status_of (some e) = audit_status_error

unfoldable pub entry_of : ℕ → String → User → Update → Option Error → AuditEntry
unfolding action_of chat_type_of chat_id_of status_of
entry_of now id user u e = record {
  id = id;
  user_id = user.telegram_id;
  username = user.username;
  action = action_of u;
  resource = "";
  cluster = "";
  namespace = "";
  chat_id = chat_id_of u;
  chat_type = chat_type_of u;
  status = status_of e;
  details = [];
  error = e;
  occurred_at = now;
}

module _ (accepts : AuditEntry → Bool) where
  -- A panic of the handler passes by the call of the logger.
  unfoldable pub audit : ℕ → String → Update → Outcome → AuditLogger → Outcome × AuditLogger
  unfolding entry_of
  audit now id u panicked l = (panicked, l)
  audit now id u (returned e) l = elim u.user [
    | none ↦ (returned e, l)
    | some user ↦ (returned e, log accepts l (entry_of now id user u e))
  ]

  -- The error that is returned, and whether the user is told of an internal error.
  unfoldable pub recovery : Outcome → Option Error × Bool
  recovery (returned e) = (e, false)
  recovery panicked = (none, true)

  -- The two around a handler that ends with the outcome.
  unfoldable pub handle_update :
      ℕ → String → Update → Outcome → AuditLogger → (Option Error × Bool) × AuditLogger
  unfolding audit recovery
  handle_update now id u outcome l =
      let (ended, l') = audit now id u outcome l in (recovery ended, l')
