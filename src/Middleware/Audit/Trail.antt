-- ===== src/Middleware/Audit/Trail.antt =====
-- That the audit trail holds the updates that internal/bot/middleware/audit.go logs.
use mathlib.Core.Path.{subst}
use telekube.Base.{
  Option-cases, inl, inr, ℕ, String, Bool, none, some, List, [], ◌∷◌, ◌++◌, length, select, ◌≤◌,
  ◌≡◌, refl, sym, ap, ◌∙◌,
}
use telekube.Entity.Audit.{AuditEntry}
use telekube.AuditLog.Logger.{
  AuditLogger, new_logger, default_buffer_size, Step, logs, receives, ticks, step, run, close,
  receive, tick, log,
}
use telekube.AuditLog.Delivery.{logged, close-run_all}
use telekube.Middleware.Audit.{Update, Outcome, returned, panicked, entry_of, audit, handle_update}

-- An update whose handler has run, or a step of the logger's worker.
pub data Event : Type 0 where
  handled : ℕ → String → Update → Outcome → Event
  worker_receives : Event
  worker_ticks : Event

-- The entry of an update.
abbrev pub entries_of : Event → List AuditEntry
entries_of (handled now id u panicked) = []
entries_of (handled now id u (returned e)) = elim u.user [
  | none ↦ []
  | some user ↦ entry_of now id user u e ∷ []
]
entries_of worker_receives = []
entries_of worker_ticks = []

abbrev pub trail : List Event → List AuditEntry
trail [] = []
trail (event ∷ rest) = entries_of event ++ trail rest

abbrev steps_of : Event → List Step
steps_of (handled now id u panicked) = []
steps_of (handled now id u (returned e)) = elim u.user [
  | none ↦ []
  | some user ↦ logs (entry_of now id user u e) ∷ []
]
steps_of worker_receives = receives ∷ []
steps_of worker_ticks = ticks ∷ []

abbrev all_steps : List Event → List Step
all_steps [] = []
all_steps (event ∷ rest) = steps_of event ++ all_steps rest

module _ (accepts : AuditEntry → Bool) where
  unfoldable pub serve : AuditLogger → Event → AuditLogger
  unfolding handle_update
  serve l (handled now id u outcome) = (handle_update accepts now id u outcome l).1
  serve l worker_receives = receive accepts l
  serve l worker_ticks = tick accepts l

  unfoldable pub serve_all : AuditLogger → List Event → AuditLogger
  unfolding serve
  serve_all l [] = l
  serve_all l (event ∷ rest) = serve_all (serve l event) rest

  logged-all_steps : (events : List Event) → logged accepts (all_steps events) ≡ trail events
  unfolding logged
  logged-all_steps [] = refl
  logged-all_steps (handled now id u panicked ∷ rest) = logged-all_steps rest
  logged-all_steps (handled now id u (returned e) ∷ rest) = elim (Option-cases u.user) [
    | inl unknown ↦ rw unknown (logged-all_steps rest)
    | inr (user, known) ↦ rw known (ap (entry_of now id user u e ∷◌) (logged-all_steps rest))
  ]
  logged-all_steps (worker_receives ∷ rest) = logged-all_steps rest
  logged-all_steps (worker_ticks ∷ rest) = logged-all_steps rest

  serve_all-run :
      (l : AuditLogger) (events : List Event)
      → serve_all l events ≡ run accepts l (all_steps events)
  unfolding serve_all run step serve handle_update audit
  serve_all-run l [] = refl
  serve_all-run l (handled now id u panicked ∷ rest) = serve_all-run l rest
  serve_all-run l (handled now id u (returned e) ∷ rest) = elim (Option-cases u.user) [
    | inl unknown ↦ rw unknown (serve_all-run l rest)
    | inr (user, known) ↦ rw known (serve_all-run (log accepts l (entry_of now id user u e)) rest)
  ]
  serve_all-run l (worker_receives ∷ rest) = serve_all-run (receive accepts l) rest
  serve_all-run l (worker_ticks ∷ rest) = serve_all-run (tick accepts l) rest

  -- If no more entries are made than the channel holds, then, whatever the worker does in between, the
  -- closed logger has stored an entry for each update of a known user whose handler returned, with the
  -- handler's outcome, in the order of the updates, less those that the repository refused; an update
  -- whose handler panicked leaves none.
  pub serve_all-trail :
      (events : List Event)
      → length (trail events) ≤ default_buffer_size
      → (close accepts (serve_all new_logger events)).stored ≡ select accepts (trail events)
  serve_all-trail events few =
      ap (λ l. (close accepts l).stored) (serve_all-run new_logger events)
      ∙ close-run_all accepts (all_steps events) (
          subst (λ entries. length entries ≤ default_buffer_size) (sym (logged-all_steps events))
            few)
      ∙ ap (select accepts) (logged-all_steps events)
