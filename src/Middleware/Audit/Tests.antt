-- ===== src/Middleware/Audit/Tests.antt =====
-- Updates that are logged, and the theorem at concrete inputs.
use telekube.Base.{
  String, Bool, true, none, some, List, [], ◌∷◌, select, string_keyed, ◌≡◌, refl, not_found, arith,
}
use telekube.Entity.Audit.{AuditEntry}
use telekube.Entity.User.{User}
use telekube.AuditLog.Logger.{new_logger, close}
use telekube.Middleware.Audit.{
  Update, group, returned, panicked, action_of, truncate_utf8, first_runes, handle_update, recovery,
  audit,
}
use telekube.Middleware.Audit.Trail.{
  Event, handled, worker_receives, worker_ticks, trail, serve_all, serve_all-trail,
}

abbrev ann : User
ann = record {
  telegram_id = 7;
  username = "ann";
  display_name = "Ann";
  role = "viewer";
  is_active = true;
  created_at = 1;
  updated_at = 1;
}

abbrev sends : String → Update
sends text = record { user = some ann; callback = none; text = text; chat = some (900, group) }

abbrev presses : String → Update
presses payload = record {
  user = some ann;
  callback = some (record { unique = "k8s_pods"; payload = payload });
  text = "Pods of prod-1";
  chat = none;
}

-- The button is logged, not the message that it stands under.
is_callback : action_of (presses "prod-1") ≡ "callback:k8s_pods:prod-1"
unfolding action_of truncate_utf8
is_callback = refl

is_cut : truncate_utf8 "äöü" 2 ≡ "äö"
unfolding truncate_utf8 first_runes
is_cut = refl

abbrev stores_all : AuditEntry → Bool
stores_all e = true

-- A panic ends as no error, with an answer to the user and without an entry.
is_recovered :
    handle_update stores_all 5 "a" (sends "/pods") panicked new_logger ≡ ((none, true), new_logger)
unfolding handle_update recovery audit
is_recovered = refl

abbrev events : List Event
events =
    handled 5 "a" (sends "/pods") (returned none)
    ∷ worker_receives
    ∷ handled 6 "b" (sends "/nodes") panicked
    ∷ handled 7 "c" (presses "prod-1") (returned (some not_found))
    ∷ worker_ticks
    ∷ []

serve_all-trail_example :
    (close stores_all (serve_all stores_all new_logger events)).stored
    ≡ select stores_all (trail events)
serve_all-trail_example = serve_all-trail stores_all events (omega arith)
