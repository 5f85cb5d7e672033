-- ===== src/Briefing/Tests.antt =====
-- Schedules, ticks of the ticker, and the theorems at concrete inputs.
use telekube.Base.{ℕ, ◌+◌, ◌*◌, ◌/◌, ◌%◌, ◌≡◌, refl, none, List, [], ◌∷◌, map, ok, arith}
use telekube.Base.Numbers.{scan_int, scan_digits, positive}
use telekube.Briefing.Schedule.{
  Tick, ticks, parse_cron_time, scan_two, skip_int, skip_digits, starts_blank, run, is_due,
  execute_briefing,
}
use telekube.Briefing.Windows.{first_due, run_window}

abbrev minutes : ℕ → ℕ
minutes n = n * 60000000000

abbrev utc : ℕ → ℕ × ℕ
utc now = ((now / 3600000000000) % 24, (now / 60000000000) % 60)

abbrev tick : ℕ → Tick
tick now = record { fired = now; checked = now; started = now + 1; report = ok "all is well" }

parses : parse_cron_time "30 7 * * *" ≡ (7, 30)
unfolding parse_cron_time scan_two scan_int scan_digits positive skip_int skip_digits starts_blank
parses = refl

defaults : parse_cron_time "@daily" ≡ (8, 0)
unfolding parse_cron_time scan_two scan_int scan_digits positive skip_int skip_digits starts_blank
defaults = refl

-- Two ticks in the minute of the schedule.
abbrev due : List Tick
due = tick (minutes 450) ∷ tick (minutes 450 + 59000000000) ∷ []

run_window_example :
    run utc "30 7 * * *" (5 ∷ 6 ∷ []) none (map ticks due)
    ≡ (minutes 450 + 1, (5, "all is well") ∷ (6, "all is well") ∷ []) ∷ []
unfolding first_due is_due execute_briefing parse_cron_time scan_two scan_int scan_digits positive
    skip_int skip_digits starts_blank
run_window_example =
    run_window utc "30 7 * * *" (5 ∷ 6 ∷ []) (minutes 450) none due tt
      ((omega arith, omega arith, omega arith), ((omega arith, omega arith, omega arith), tt))
