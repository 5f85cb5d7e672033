-- ===== src/Briefing/Windows.antt =====
-- How often internal/module/briefing/scheduler.go sends the report.
use telekube.Base.{
  ℕ, ◌+◌, ◌≤◌, ◌<◌, String, ◌≡◌, refl, Option, none, some, List, [], ◌∷◌, map, All, arith,
  if◌then◌else◌, inl, inr, Bool-cases, ◌&&◌,
}
use telekube.Briefing.Schedule.{
  Tick, Event, ticks, stops, run_gap, execute_briefing, Briefing, may_run, is_due, run,
}

-- Each briefing starts more than two minutes after the one before it.
abbrev Follow : ℕ → List Briefing → Type 0
Follow last_run [] = Unit
Follow last_run (b ∷ later) = (last_run + run_gap < b.0) × Follow b.0 later

abbrev pub IsSpaced : List Briefing → Type 0
IsSpaced [] = Unit
IsSpaced (b ∷ later) = Follow b.0 later

-- The clock does not go back between the two times that the loop reads it.
abbrev pub IsOrdered : Event → Type 0
IsOrdered (ticks t) = t.checked ≤ t.started
IsOrdered stops = Unit

-- A window of two minutes from `from` on.
abbrev pub IsWithin : ℕ → Tick → Type 0
IsWithin from t = (from ≤ t.checked) × (t.checked ≤ t.started) × (t.checked ≤ from + run_gap)

-- The last briefing started more than two minutes before the window.
abbrev pub IsQuiet : ℕ → Option ℕ → Type 0
IsQuiet from none = Unit
IsQuiet from (some last_run) = last_run + run_gap < from

module _ (local : ℕ → ℕ × ℕ) (schedule : String) (chats : List ℕ) where
  unfoldable pub first_due : List Tick → Option Tick
  first_due [] = none
  first_due (t ∷ rest) = if is_due local schedule chats t then some t else first_due rest

  abbrev pub briefing_of : Option Tick → List Briefing
  briefing_of none = []
  briefing_of (some t) = (t.started, execute_briefing chats t.report) ∷ []

  run-Follow :
      (last_run : ℕ) (events : List Event)
      → All IsOrdered events
      → Follow last_run (run local schedule chats (some last_run) events)
  unfolding run may_run
  run-Follow last_run [] all = tt
  run-Follow last_run (stops ∷ rest) (o, all) = tt
  run-Follow last_run (ticks t ∷ rest) (o, all) =
      elim (Bool-cases (is_due local schedule chats t && may_run (some last_run) t.checked)) [
        | inl runs ↦ rw runs (ground arith, run-Follow t.started rest all)
        | inr rests ↦ rw rests (run-Follow last_run rest all)
      ]

  -- However often the ticker ticks, a briefing starts more than two minutes after the one before it. The
  -- clock does not go back between the two times that the loop reads it.
  run-IsSpaced :
      (events : List Event) → All IsOrdered events → IsSpaced (run local schedule chats none events)
  unfolding run may_run
  run-IsSpaced [] all = tt
  run-IsSpaced (stops ∷ rest) (o, all) = tt
  run-IsSpaced (ticks t ∷ rest) (o, all) = elim (Bool-cases (is_due local schedule chats t)) [
    | inl runs ↦ rw runs (run-Follow t.started rest all)
    | inr rests ↦ rw rests (run-IsSpaced rest all)
  ]

  run_again :
      (from last_run : ℕ) (ts : List Tick)
      → from ≤ last_run
      → All (IsWithin from) ts
      → run local schedule chats (some last_run) (map ticks ts) ≡ []
  unfolding run may_run
  run_again from last_run [] le all = refl
  run_again from last_run (t ∷ rest) le ((a, b, c), all) =
      ground (arith, run_again from last_run rest le all)

  -- If the ticks of a window of two minutes include some at the scheduled time, then the first of them,
  -- and no other, starts a briefing; else none does. The briefing before is more than two minutes old.
  pub run_window :
      (from : ℕ) (last_run : Option ℕ) (ts : List Tick)
      → IsQuiet from last_run
      → All (IsWithin from) ts
      → run local schedule chats last_run (map ticks ts) ≡ briefing_of (first_due ts)
  unfolding run may_run first_due
  run_window from last_run [] quiet all = refl
  run_window from none (t ∷ rest) quiet ((a, b, c), all) =
      ground
        (arith, run_window from none rest tt all, run_again from t.started rest (omega arith) all)
  run_window from (some last_run) (t ∷ rest) quiet ((a, b, c), all) = ground (
    arith,
    run_window from (some last_run) rest quiet all,
    run_again from t.started rest (omega arith) all,
  )
