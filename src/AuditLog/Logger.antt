-- ===== src/AuditLog/Logger.antt =====
-- internal/audit/logger.go: the buffered channel, the batch of the worker and the table. Each
-- constructor of `Step` is one communication on a channel, or one tick of the worker's clock, with what
-- follows it in the same goroutine. `Flush` is called by `Close` alone.
use telekube.Base.{ℕ, Bool, List, [], ◌∷◌, ◌++◌, length, leb, ltb, if◌then◌else◌, select}
use telekube.Entity.Audit.{AuditEntry}

abbrev pub default_buffer_size : ℕ
default_buffer_size = 1000

abbrev pub flush_batch_size : ℕ
flush_batch_size = 100

-- `stored` is the table in the order of the insertions, `dropped` what `Log` gave up on.
pub record AuditLogger : Type 0 where
  pub entries : List AuditEntry
  pub batch : List AuditEntry
  pub stored : List AuditEntry
  pub dropped : List AuditEntry

abbrev pub new_logger : AuditLogger
new_logger = record { entries = []; batch = []; stored = []; dropped = [] }

pub data Step : Type 0 where
  logs : AuditEntry → Step
  receives : Step
  ticks : Step

-- `accepts` says whether the repository's `Create` succeeds for an entry; a failed one is lost.
module _ (accepts : AuditEntry → Bool) where
  unfoldable pub log : AuditLogger → AuditEntry → AuditLogger
  log l entry =
      if ltb (length l.entries) default_buffer_size
      then record l { entries = l.entries ++ entry ∷ [] }
      else record l { dropped = l.dropped ++ entry ∷ [] }

  unfoldable pub write_batch : AuditLogger → AuditLogger
  write_batch l = record l { stored = l.stored ++ select accepts l.batch; batch = [] }

  -- The worker takes an entry of those in the channel.
  unfoldable pub take_entry : AuditLogger → List AuditEntry → AuditLogger
  unfolding write_batch
  take_entry l [] = l
  take_entry l (entry ∷ rest) =
      let l' : AuditLogger = record l { entries = rest; batch = l.batch ++ entry ∷ [] } in
      if leb flush_batch_size (length l'.batch) then write_batch l' else l'

  unfoldable pub receive : AuditLogger → AuditLogger
  unfolding take_entry
  receive l = take_entry l l.entries

  -- The ticker fires.
  unfoldable pub tick : AuditLogger → AuditLogger
  unfolding write_batch
  tick l = if ltb 0 (length l.batch) then write_batch l else l

  -- The worker drains the channel into its last batch and writes it; `Close` then flushes what is left,
  -- one entry after the other.
  unfoldable pub drain : AuditLogger → AuditLogger
  unfolding tick
  drain l = tick (record l { entries = []; batch = l.batch ++ l.entries })

  unfoldable pub flush : AuditLogger → AuditLogger
  flush l = record l { entries = []; stored = l.stored ++ select accepts l.entries }

  unfoldable pub close : AuditLogger → AuditLogger
  unfolding drain flush
  close l = flush (drain l)

  unfoldable pub step : AuditLogger → Step → AuditLogger
  unfolding log receive tick
  step l (logs entry) = log l entry
  step l receives = receive l
  step l ticks = tick l

  unfoldable pub run : AuditLogger → List Step → AuditLogger
  unfolding step
  run l [] = l
  run l (s ∷ rest) = run (step l s) rest
