-- ===== src/Middleware/Tests.antt =====
-- Updates through the middleware, and the theorems at concrete inputs.
use telekube.Base.{◌≤◌, true, ◌≡◌, refl, some, [], ◌∷◌, count_if, if◌then◌else◌, leb, arith}
use telekube.Entity.User.{User}
use telekube.Middleware.RateLimit.{rate_limit, allow}
use telekube.Middleware.Window.{is_within, admitted, admitted-le, Arrivals}
use telekube.Middleware.Auth.{TelegramConfig, Sender, auth, chat_allowed}
use telekube.Middleware.Registration.{user_repo, Registers, auth-Registers}

-- Two users, three seconds, and a request of the first user a minute later.
abbrev arrivals : Arrivals
arrivals =
    (1_000_000_000, 7)
    ∷ (2_000_000_000, 8)
    ∷ (2_000_000_000, 7)
    ∷ (3_000_000_000, 7)
    ∷ (61_000_000_000, 7)
    ∷ []

-- The third request of user 7 is refused, and the fourth one is let through as the first one is a
-- minute old.
admits : admitted 7 (rate_limit 2) arrivals [] ≡ 61_000_000_000 ∷ 2_000_000_000 ∷ 1_000_000_000 ∷ []
unfolding admitted rate_limit allow
admits = refl

admitted-le_example :
    count_if (is_within 60_000_000_000) (admitted 7 (rate_limit 2) arrivals [])
    ≤ (if leb 2 0 then 30 else 2)
admitted-le_example =
    admitted-le 7 2 arrivals 60_000_000_000
      (omega arith, (omega arith, (omega arith, (omega arith, (omega arith, tt)))))

abbrev cfg : TelegramConfig
cfg = record { allowed_chats = 900 ∷ []; admin_ids = 7 ∷ [] }

abbrev ann : Sender
ann = record { id = 7; username = "ann"; first_name = "Ann"; last_name = "Lee" }

abbrev bob : User
bob = record {
  telegram_id = 8;
  username = "bob";
  display_name = "Bob";
  role = "operator";
  is_active = true;
  created_at = 1;
  updated_at = 1;
}

auth-Registers_example :
    Registers cfg 5 (bob ∷ []) ann (auth (user_repo 5) cfg (bob ∷ []) 5 (some ann) 900)
unfolding chat_allowed
auth-Registers_example = auth-Registers cfg 5 (bob ∷ []) ann 900 refl
