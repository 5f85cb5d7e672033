-- ===== src/AuditLog/Tests.antt =====
-- Runs of the audit logger, and the theorems at concrete inputs.
use telekube.Base.{String, Bool, ◌≡◌, refl, none, List, [], ◌∷◌, select, ◌==◌, string_keyed, not}
use telekube.Entity.Audit.{AuditEntry}
use telekube.AuditLog.Logger.{
  new_logger, Step, logs, receives, ticks, step, run, close, log, receive, take_entry, tick, drain,
  flush, write_batch,
}
use telekube.AuditLog.Delivery.{kept, close-run}

abbrev entry : String → AuditEntry
entry id = record {
  id = id;
  user_id = 7;
  username = "ann";
  action = "/pods";
  resource = "";
  cluster = "";
  namespace = "";
  chat_id = 900;
  chat_type = "group";
  status = "success";
  details = [];
  error = none;
  occurred_at = 5;
}

-- The repository refuses one entry.
abbrev accepts : AuditEntry → Bool
accepts e = not (e.id == "bad")

abbrev steps : List Step
steps = logs (entry "a") ∷ receives ∷ logs (entry "bad") ∷ ticks ∷ logs (entry "b") ∷ receives ∷ []

stores : (close accepts (run accepts new_logger steps)).stored ≡ entry "a" ∷ entry "b" ∷ []
unfolding close run step log receive take_entry tick drain flush write_batch
stores = refl

close-run_example :
    (close accepts (run accepts new_logger steps)).stored
    ≡ select accepts (kept accepts new_logger steps)
close-run_example = close-run accepts steps
