-- ===== src/AuditLog/Delivery.antt =====
-- That internal/audit/logger.go stores every entry that it does not drop.
use mathlib.Core.List.{append-nil, append_assoc}
use telekube.Base.{
  ◌+◌, ◌≤◌, ◌≡◌, refl, sym, ap, ◌∙◌, Bool, Bool-cases, inl, inr, true, false, List, [], ◌∷◌, ◌++◌,
  length, leb, ltb, if◌then◌else◌, select, length-append, arith,
}
use telekube.Entity.Audit.{AuditEntry}
use telekube.AuditLog.Logger.{
  AuditLogger, new_logger, flush_batch_size, default_buffer_size, log, write_batch, take_entry,
  receive, tick, drain, flush, close, Step, logs, receives, ticks, step, run,
}

regroup : (xs ys zs ws : List AuditEntry) → xs ++ (ys ++ (zs ++ ws)) ≡ (xs ++ (ys ++ zs)) ++ ws
regroup xs ys zs ws =
    ap (xs ++◌) (sym (append_assoc ys zs ws)) ∙ sym (append_assoc xs (ys ++ zs) ws)

module _ (accepts : AuditEntry → Bool) where
  select-append :
      (xs ys : List AuditEntry) → select accepts (xs ++ ys) ≡ select accepts xs ++ select accepts ys
  select-append [] ys = refl
  select-append (x ∷ xs) ys = ground (arith, select-append xs ys)

  -- All that has been stored or will be, if the worker goes on.
  unfoldable pending_all : AuditLogger → List AuditEntry
  pending_all l = l.stored ++ (select accepts l.batch ++ select accepts l.entries)

  write_batch_same : (l : AuditLogger) → pending_all (write_batch accepts l) ≡ pending_all l
  unfolding pending_all write_batch
  write_batch_same l = append_assoc l.stored (select accepts l.batch) (select accepts l.entries)

  moved :
      (l : AuditLogger) (entry : AuditEntry) (rest : List AuditEntry)
      → pending_all (record l { entries = rest; batch = l.batch ++ entry ∷ [] })
        ≡ l.stored ++ (select accepts l.batch ++ select accepts (entry ∷ rest))
  unfolding pending_all
  moved l entry rest = ap (l.stored ++◌) (
      ap (λ xs. xs ++ select accepts rest) (select-append l.batch (entry ∷ []))
      ∙ append_assoc (select accepts l.batch) (select accepts (entry ∷ [])) (select accepts rest)
      ∙ ap (select accepts l.batch ++◌) (sym (select-append (entry ∷ []) rest)))

  take_entry_same :
      (l : AuditLogger) (entries : List AuditEntry)
      → l.entries ≡ entries
      → pending_all (take_entry accepts l entries)
        ≡ l.stored ++ (select accepts l.batch ++ select accepts entries)
  unfolding take_entry
  take_entry_same l [] e =
      unfold pending_all in ap (λ es. l.stored ++ (select accepts l.batch ++ select accepts es)) e
  take_entry_same l (entry ∷ rest) e =
      elim (Bool-cases (leb flush_batch_size (length (l.batch ++ entry ∷ [])))) [
        | inl full ↦ rw full (write_batch_same _ ∙ moved l entry rest)
        | inr room ↦ rw room (moved l entry rest)
      ]

  receive_same : (l : AuditLogger) → pending_all (receive accepts l) ≡ pending_all l
  unfolding receive pending_all
  receive_same l = take_entry_same l l.entries refl

  tick_same : (l : AuditLogger) → pending_all (tick accepts l) ≡ pending_all l
  unfolding tick
  tick_same l = elim (Bool-cases (ltb 0 (length l.batch))) [
    | inl some_left ↦ rw some_left (write_batch_same l)
    | inr none_left ↦ rw none_left refl
  ]

  log_same :
      (l : AuditLogger) (entry : AuditEntry)
      → pending_all (log accepts l entry)
        ≡ pending_all l
          ++ select accepts (if ltb (length l.entries) default_buffer_size then entry ∷ [] else [])
  unfolding log pending_all
  log_same l entry = elim (Bool-cases (ltb (length l.entries) default_buffer_size)) [
    | inl room ↦ rw room (
        ap (λ xs. l.stored ++ (select accepts l.batch ++ xs)) (select-append l.entries (entry ∷ []))
        ∙ regroup l.stored (select accepts l.batch) (select accepts l.entries)
            (select accepts (entry ∷ [])))
    | inr full ↦ rw full (sym (append-nil (pending_all l)))
  ]

  -- The entries that `Log` puts into the channel, in their order.
  unfoldable pub kept : AuditLogger → List Step → List AuditEntry
  unfolding step
  kept l [] = []
  kept l (logs entry ∷ rest) =
      (if ltb (length l.entries) default_buffer_size then entry ∷ [] else [])
      ++ kept (log accepts l entry) rest
  kept l (receives ∷ rest) = kept (receive accepts l) rest
  kept l (ticks ∷ rest) = kept (tick accepts l) rest

  run_pending :
      (l : AuditLogger) (steps : List Step)
      → pending_all (run accepts l steps) ≡ pending_all l ++ select accepts (kept l steps)
  unfolding run step kept
  run_pending l [] = sym (append-nil (pending_all l))
  run_pending l (logs entry ∷ rest) =
      let first = if ltb (length l.entries) default_buffer_size then entry ∷ [] else [] in
      run_pending (log accepts l entry) rest
      ∙ ap (λ xs. xs ++ select accepts (kept (log accepts l entry) rest)) (log_same l entry)
      ∙ append_assoc (pending_all l) (select accepts first)
          (select accepts (kept (log accepts l entry) rest))
      ∙ ap (pending_all l ++◌) (sym (select-append first (kept (log accepts l entry) rest)))
  run_pending l (receives ∷ rest) =
      run_pending (receive accepts l) rest
      ∙ ap (λ xs. xs ++ select accepts (kept (receive accepts l) rest)) (receive_same l)
  run_pending l (ticks ∷ rest) =
      run_pending (tick accepts l) rest
      ∙ ap (λ xs. xs ++ select accepts (kept (tick accepts l) rest)) (tick_same l)

  select_empty : (xs : List AuditEntry) → ltb 0 (length xs) ≡ false → select accepts xs ≡ []
  select_empty [] h = refl
  select_empty (x ∷ xs) h = ground arith

  close_stored : (l : AuditLogger) → (close accepts l).stored ≡ pending_all l
  unfolding close flush drain tick write_batch pending_all
  close_stored l = elim (Bool-cases (ltb 0 (length (l.batch ++ l.entries)))) [
    | inl some_left ↦
        rw some_left (append-nil _ ∙ ap (l.stored ++◌) (select-append l.batch l.entries))
    | inr none_left ↦ rw none_left (
        append-nil l.stored
        ∙ sym (append-nil l.stored)
        ∙ ap (l.stored ++◌)
            (sym (select_empty (l.batch ++ l.entries) none_left) ∙ select-append l.batch l.entries))
  ]

  -- Whatever the interleaving of the callers with the worker, once the logger is closed the table holds
  -- the entries that found room in the channel, in the order of the calls, less those that the
  -- repository refused.
  pub close-run :
      (steps : List Step)
      → (close accepts (run accepts new_logger steps)).stored
        ≡ select accepts (kept new_logger steps)
  close-run steps =
      close_stored (run accepts new_logger steps)
      ∙ run_pending new_logger steps
      ∙ unfold pending_all in refl

  length-take_entry :
      (l : AuditLogger) (entries : List AuditEntry)
      → length l.entries ≤ length entries
      → length (take_entry accepts l entries).entries ≤ length entries
  unfolding take_entry write_batch
  length-take_entry l [] h = h
  length-take_entry l (entry ∷ rest) h = ground arith

  length-tick : (l : AuditLogger) → length (tick accepts l).entries ≡ length l.entries
  unfolding tick write_batch
  length-tick l = ground arith

  length-log :
      (l : AuditLogger) (entry : AuditEntry)
      → ltb (length l.entries) default_buffer_size ≡ true
      → length (log accepts l entry).entries ≡ length l.entries + 1
  unfolding log
  length-log l entry room = rw room (length-append l.entries (entry ∷ []))

  -- The entries that `Log` is called with.
  unfoldable pub logged : List Step → List AuditEntry
  logged [] = []
  logged (logs entry ∷ rest) = entry ∷ logged rest
  logged (receives ∷ rest) = logged rest
  logged (ticks ∷ rest) = logged rest

  kept_all :
      (l : AuditLogger) (steps : List Step)
      → length l.entries + length (logged steps) ≤ default_buffer_size
      → kept l steps ≡ logged steps
  unfolding kept logged receive
  kept_all l [] h = refl
  kept_all l (logs entry ∷ rest) h =
      let room : ltb (length l.entries) default_buffer_size ≡ true = ground arith in
      ap (λ b. (if b then entry ∷ [] else []) ++ kept (log accepts l entry) rest) room
      ∙ ap (entry ∷◌) (kept_all (log accepts l entry) rest (omega (arith, length-log l entry room)))
  kept_all l (receives ∷ rest) h =
      kept_all (receive accepts l) rest (omega (arith, length-take_entry l l.entries (omega arith)))
  kept_all l (ticks ∷ rest) h = kept_all (tick accepts l) rest (omega (arith, length-tick l))

  -- If at most as many entries are logged as the channel holds, the closed logger has stored all of
  -- them, in their order, less those that the repository refused.
  pub close-run_all :
      (steps : List Step)
      → length (logged steps) ≤ default_buffer_size
      → (close accepts (run accepts new_logger steps)).stored ≡ select accepts (logged steps)
  close-run_all steps h =
      close-run steps ∙ ap (select accepts) (kept_all new_logger steps (omega (arith, h)))
