-- ===== src/Middleware/Registration.antt =====
-- What internal/bot/middleware/auth.go leaves in the table of users.
use mathlib.Core.Path.{subst}
use telekube.Base.{
  ℕ, String, Bool-cases, true, false, ◌≡◌, ◌≢◌, refl, sym, ap, ◌∙◌, ◌&&◌, some, List, [], ◌∷◌, ◌==◌,
  contains, same_refl, nat_keyed, ◌⊎◌, inl, inr, string_keyed, if◌then◌else◌, not_found, ok, err,
  arith,
}
use telekube.Entity.User.{User, role_admin, role_viewer}
use telekube.Storage.Users.{get_by_telegram_id, upsert}
use telekube.Middleware.Auth.{
  UserRepository, TelegramConfig, Sender, Access, next, display_name, chat_allowed, initial_role,
  new_user, auth, refresh, register, authenticate,
}

-- The SQLite repository; no statement fails.
unfoldable pub user_repo : ℕ → UserRepository (List User)
user_repo now = record {
  get_by_telegram_id = get_by_telegram_id;
  upsert = λ t user. ok (upsert now t user);
}

get_by_telegram_id-upsert :
    (now : ℕ) (t : List User) (user : User) (id : ℕ)
    → get_by_telegram_id (upsert now t user) id ≡ (
        if user.telegram_id == id
        then elim (get_by_telegram_id t id) [
          | err e ↦ ok (record user { created_at = now; updated_at = now })
          | ok u ↦ ok (record u {
            username = user.username;
            display_name = user.display_name;
            updated_at = now;
          })
        ]
        else get_by_telegram_id t id)
unfolding get_by_telegram_id upsert
get_by_telegram_id-upsert now [] user id = ground arith
get_by_telegram_id-upsert now (u ∷ rest) user id = ground (
  arith,
  get_by_telegram_id-upsert now rest user id,
  nat_keyed.same_iff u.telegram_id user.telegram_id,
  nat_keyed.same_iff u.telegram_id id,
  nat_keyed.same_iff user.telegram_id id,
)

-- The role under which a sender's update runs and is stored.
abbrev pub role_for : TelegramConfig → List User → Sender → String
role_for cfg t sender = elim (get_by_telegram_id t sender.id) [
  | err e ↦ if contains cfg.admin_ids sender.id then role_admin else role_viewer
  | ok u ↦ u.role
]

get_by_telegram_id-id :
    (t : List User) (id : ℕ) (u : User) → get_by_telegram_id t id ≡ ok u → u.telegram_id ≡ id
unfolding get_by_telegram_id
get_by_telegram_id-id [] id u e = ground arith
get_by_telegram_id-id (q ∷ rest) id u e =
    ground (arith, get_by_telegram_id-id rest id u, nat_keyed.same_iff q.telegram_id id)

get_by_telegram_id_missing :
    (t : List User) (id : ℕ)
    → (get_by_telegram_id t id ≡ err not_found) ⊎ ((u : User) × (get_by_telegram_id t id ≡ ok u))
unfolding get_by_telegram_id
get_by_telegram_id_missing [] id = inl refl
get_by_telegram_id_missing (q ∷ rest) id = elim (Bool-cases (q.telegram_id == id)) [
  | inl here ↦ inr (q, ground arith)
  | inr there ↦ rw there (get_by_telegram_id_missing rest id)
]

-- The user that an update is passed on with, and the row that is left.
pub record Registers (cfg : TelegramConfig) (now : ℕ) (t : List User) (sender : Sender)
    (result : Access × List User) : Type 0 where
  pub user : User
  pub passed : result.0 ≡ next user
  pub user_id : user.telegram_id ≡ sender.id
  pub user_role : user.role ≡ role_for cfg t sender
  pub user_name : user.username ≡ sender.username
  pub row : User
  pub stored : get_by_telegram_id result.1 sender.id ≡ ok row
  pub row_role : row.role ≡ role_for cfg t sender
  pub row_name : row.username ≡ sender.username
  pub row_display_name : row.display_name ≡ display_name sender
  pub others : (id : ℕ) → id ≢ sender.id → get_by_telegram_id result.1 id ≡ get_by_telegram_id t id

refresh_same :
    (now : ℕ) (t : List User) (user : User) (sender : Sender)
    → (user.username == sender.username && user.display_name == display_name sender) ≡ true
    → refresh (user_repo now) t user sender ≡ (next user, t)
unfolding refresh
refresh_same now t user sender same = rw same refl

abbrev renamed : User → Sender → User
renamed user sender = record user { username = sender.username; display_name = display_name sender }

refresh_other :
    (now : ℕ) (t : List User) (user : User) (sender : Sender)
    → (user.username == sender.username && user.display_name == display_name sender) ≡ false
    → refresh (user_repo now) t user sender
      ≡ (next (renamed user sender), upsert now t (renamed user sender))
unfolding refresh user_repo
refresh_other now t user sender other = rw other refl

role_for_known :
    (cfg : TelegramConfig) (t : List User) (sender : Sender) (user : User)
    → get_by_telegram_id t sender.id ≡ ok user
    → role_for cfg t sender ≡ user.role
role_for_known cfg t sender user e = ground arith

refresh-Registers :
    (cfg : TelegramConfig) (now : ℕ) (t : List User) (user : User) (sender : Sender)
    → get_by_telegram_id t sender.id ≡ ok user
    → Registers cfg now t sender (refresh (user_repo now) t user sender)
refresh-Registers cfg now t user sender e =
    let id = get_by_telegram_id-id t sender.id user e in
    let role = sym (role_for_known cfg t sender user e) in
    elim (Bool-cases
      (user.username == sender.username && user.display_name == display_name sender)) [
        | inl same ↦
            let run = refresh_same now t user sender same in
            record {
              user = user;
              passed = ap (λ r. r.0) run;
              user_id = id;
              user_role = role;
              user_name = ground (arith, string_keyed.same_iff user.username sender.username);
              row = user;
              stored = ap (λ r. get_by_telegram_id r.1 sender.id) run ∙ e;
              row_role = role;
              row_name = ground (arith, string_keyed.same_iff user.username sender.username);
              row_display_name =
                  ground (arith, string_keyed.same_iff user.display_name (display_name sender));
              others = λ j n. ap (λ r. get_by_telegram_id r.1 j) run;
            }
        | inr other ↦
            let run = refresh_other now t user sender other in
            record {
              user = renamed user sender;
              passed = ap (λ r. r.0) run;
              user_id = id;
              user_role = role;
              user_name = refl;
              row = record (renamed user sender) { updated_at = now };
              stored =
                  ap (λ r. get_by_telegram_id r.1 sender.id) run
                  ∙ ground (
                    arith,
                    get_by_telegram_id-upsert now t (renamed user sender) sender.id,
                    nat_keyed.same_iff user.telegram_id sender.id,
                  );
              row_role = role;
              row_name = refl;
              row_display_name = refl;
              others = λ j n.
                  ap (λ r. get_by_telegram_id r.1 j) run
                  ∙ ground (
                    arith,
                    get_by_telegram_id-upsert now t (renamed user sender) j,
                    nat_keyed.same_iff user.telegram_id j,
                  );
            }
      ]

register_new :
    (cfg : TelegramConfig) (now : ℕ) (t : List User) (sender : Sender)
    → register (user_repo now) cfg t now sender
      ≡ (next (new_user cfg now sender), upsert now t (new_user cfg now sender))
unfolding register user_repo new_user
register_new cfg now t sender =
    refresh_same now (upsert now t (new_user cfg now sender)) (new_user cfg now sender) sender
      (rw (same_refl sender.username, same_refl (display_name sender)) refl)

register-Registers :
    (cfg : TelegramConfig) (now : ℕ) (t : List User) (sender : Sender)
    → get_by_telegram_id t sender.id ≡ err not_found
    → Registers cfg now t sender (register (user_repo now) cfg t now sender)
unfolding new_user initial_role
register-Registers cfg now t sender e =
    let run = register_new cfg now t sender in
    let user = new_user cfg now sender in
    let role : user.role ≡ role_for cfg t sender = ground arith in
    record {
      user = user;
      passed = ap (λ r. r.0) run;
      user_id = refl;
      user_role = role;
      user_name = refl;
      row = user;
      stored =
          ap (λ r. get_by_telegram_id r.1 sender.id) run
          ∙ ground (
            arith,
            get_by_telegram_id-upsert now t user sender.id,
            nat_keyed.same_iff sender.id sender.id,
          );
      row_role = role;
      row_name = refl;
      row_display_name = refl;
      others = λ j n.
          ap (λ r. get_by_telegram_id r.1 j) run
          ∙ ground (arith, get_by_telegram_id-upsert now t user j, nat_keyed.same_iff sender.id j);
    }

authenticate_new :
    (cfg : TelegramConfig) (now : ℕ) (t : List User) (sender : Sender)
    → get_by_telegram_id t sender.id ≡ err not_found
    → authenticate (user_repo now) cfg t now sender ≡ register (user_repo now) cfg t now sender
unfolding authenticate user_repo
authenticate_new cfg now t sender e = rw (e, authenticate) refl

authenticate_known :
    (cfg : TelegramConfig) (now : ℕ) (t : List User) (sender : Sender) (user : User)
    → get_by_telegram_id t sender.id ≡ ok user
    → authenticate (user_repo now) cfg t now sender ≡ refresh (user_repo now) t user sender
unfolding authenticate user_repo
authenticate_known cfg now t sender user e = rw (e, authenticate) refl

-- An update from an allowed chat is passed on with its sender's user, whose name is the sender's and
-- whose role is the stored one, or for a sender who is not stored the administrator's if the
-- configuration lists the sender and the viewer's if not. The row that is left has the same name and
-- role, and no other user's row changes.
pub auth-Registers :
    (cfg : TelegramConfig) (now : ℕ) (t : List User) (sender : Sender) (chat_id : ℕ)
    → chat_allowed cfg chat_id sender ≡ true
    → Registers cfg now t sender (auth (user_repo now) cfg t now (some sender) chat_id)
unfolding auth
auth-Registers cfg now t sender chat_id allowed = elim (get_by_telegram_id_missing t sender.id) [
  | inl e ↦
      let run : auth (user_repo now) cfg t now (some sender) chat_id
          ≡ register (user_repo now) cfg t now sender =
        rw (allowed, authenticate_new cfg now t sender e) refl in
      subst (Registers cfg now t sender) (sym run) (register-Registers cfg now t sender e)
  | inr (user, e) ↦
      let run : auth (user_repo now) cfg t now (some sender) chat_id
          ≡ refresh (user_repo now) t user sender =
        rw (allowed, authenticate_known cfg now t sender user e) refl in
      subst (Registers cfg now t sender) (sym run) (refresh-Registers cfg now t user sender e)
]
