-- ===== src/Middleware/Auth.antt =====
-- internal/bot/middleware/auth.go: who may talk to the bot, and the registration of new users.
use Prim.Native.String.{◌++◌ as concat}
use telekube.Base.{
  ℕ, String, Bool, true, ◌&&◌, ◌||◌, Option, none, some, List, [], ◌∷◌, ◌==◌, nat_keyed,
  string_keyed, if◌then◌else◌, contains, is_not_found, Result, ok, err, result,
}
use telekube.Entity.User.{User, role_admin, role_viewer}

-- internal/storage/storage.go's `UserRepository`, as far as it is called; the two clocks are its own.
pub record UserRepository (S : Type 0) : Type 0 where
  pub get_by_telegram_id : S → ℕ → Result User
  pub upsert : S → User → Result S

pub record TelegramConfig : Type 0 where
  pub allowed_chats : List ℕ
  pub admin_ids : List ℕ

-- telebot's user.
pub record Sender : Type 0 where
  pub id : ℕ
  pub username : String
  pub first_name : String
  pub last_name : String

-- What becomes of an update: dropped, answered with an error, or passed on with the user.
pub data Access : Type 0 where
  ignored : Access
  internal_error : Access
  next : User → Access

unfoldable pub display_name : Sender → String
display_name sender =
    if sender.last_name == ""
    then sender.first_name
    else concat sender.first_name (concat " " sender.last_name)

unfoldable pub chat_allowed : TelegramConfig → ℕ → Sender → Bool
chat_allowed cfg chat_id sender = elim cfg.allowed_chats [
  | [] ↦ true
  | c ∷ cs ↦ contains (c ∷ cs) chat_id || (chat_id == sender.id)
]

unfoldable pub initial_role : TelegramConfig → Sender → String
initial_role cfg sender = if contains cfg.admin_ids sender.id then role_admin else role_viewer

unfoldable pub new_user : TelegramConfig → ℕ → Sender → User
unfolding display_name initial_role
new_user cfg now sender = record {
  telegram_id = sender.id;
  username = sender.username;
  display_name = display_name sender;
  role = initial_role cfg sender;
  is_active = true;
  created_at = now;
  updated_at = now;
}

module _ {S : Type 0} (repo : UserRepository S) where
  -- Stores a changed name, if it can, and passes the update on.
  unfoldable pub refresh : S → User → Sender → Access × S
  unfolding display_name
  refresh s user sender =
      if user.username == sender.username && user.display_name == display_name sender
      then (next user, s)
      else let renamed = record user {
        username = sender.username;
        display_name = display_name sender;
      } in
        (next renamed, result s (repo.upsert s renamed))

  unfoldable pub register : TelegramConfig → S → ℕ → Sender → Access × S
  unfolding refresh new_user
  register cfg s now sender = elim (repo.upsert s (new_user cfg now sender)) [
    | err e ↦ (internal_error, s)
    | ok s' ↦ refresh s' (new_user cfg now sender) sender
  ]

  unfoldable pub authenticate : TelegramConfig → S → ℕ → Sender → Access × S
  unfolding refresh register
  authenticate cfg s now sender = elim (repo.get_by_telegram_id s sender.id) [
    | ok user ↦ refresh s user sender
    | err e ↦ if is_not_found e then register cfg s now sender else (internal_error, s)
  ]

  unfoldable pub auth : TelegramConfig → S → ℕ → Option Sender → ℕ → Access × S
  unfolding chat_allowed authenticate
  auth cfg s now none chat_id = (ignored, s)
  auth cfg s now (some sender) chat_id =
      if chat_allowed cfg chat_id sender then authenticate cfg s now sender else (ignored, s)
