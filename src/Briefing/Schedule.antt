-- ===== src/Briefing/Schedule.antt =====
-- internal/module/briefing/scheduler.go. The time zone database is the argument `local`, which gives the
-- hour and the minute of a time; the text of the report, made from the clusters, comes with each tick.
use Prim.Native.Char.{Char, code}
use telekube.Base.{
  ℕ, ◌-◌, ◌*◌, String, Bool, true, false, not, ◌&&◌, ◌||◌, Option, none, some, List, [], ◌∷◌, map,
  ltb, ◌==◌, nat_keyed, if◌then◌else◌, Result, ok, err,
}
use telekube.Base.Numbers.{is_digit, scan_int}

abbrev pub is_blank : Char → Bool
is_blank c = code c == b' ' || code c == b'\t'

-- What follows the number that `scan_int` reads.
unfoldable pub skip_digits : String → String
skip_digits String.[] = String.[]
skip_digits (String.◌∷◌ c rest) =
    let more = skip_digits rest in if is_digit c then more else String.◌∷◌ c rest

unfoldable pub skip_int : String → String
unfolding skip_digits
skip_int String.[] = String.[]
skip_int (String.◌∷◌ c rest) =
    let later = skip_int rest in
    if is_blank c
    then later
    else if code c == b'-' || code c == b'+'
    then skip_digits rest
    else skip_digits (String.◌∷◌ c rest)

unfoldable pub starts_blank : String → Bool
starts_blank String.[] = false
starts_blank (String.◌∷◌ c rest) = is_blank c

-- fmt.Sscanf with "%d %d": a number, a blank and a number.
unfoldable pub scan_two : String → Option (ℕ × ℕ)
unfolding scan_int skip_int starts_blank
scan_two s = elim (scan_int s) [
  | none ↦ none
  | some m ↦
      if not (starts_blank (skip_int s))
      then none
      else elim (scan_int (skip_int s)) [ none ↦ none | some h ↦ some (m, h) ]
]

-- The hour and the minute of "M H * * *", or 8:00.
unfoldable pub parse_cron_time : String → ℕ × ℕ
unfolding scan_two
parse_cron_time schedule = elim (scan_two schedule) [ none ↦ (8, 0) | some (m, h) ↦ (h, m) ]

-- `fired` is the time that the ticker sends, `checked` and `started` what the clock says when the
-- loop looks at it and when it sets `lastRun`; `report` is the answer of `Generate`.
pub record Tick : Type 0 where
  pub fired : ℕ
  pub checked : ℕ
  pub started : ℕ
  pub report : Result String

-- What the loop waits for: `stops` is a closed channel or context.
pub data Event : Type 0 where
  ticks : Tick → Event
  stops : Event

abbrev pub run_gap : ℕ
run_gap = 2 * 60000000000

unfoldable pub execute_briefing : List ℕ → Result String → List (ℕ × String)
execute_briefing chats (err e) = []
execute_briefing chats (ok text) = map (λ chat. (chat, text)) chats

-- When a briefing started, and the messages that it sent.
abbrev pub Briefing : Type 0
Briefing = ℕ × List (ℕ × String)

unfoldable pub may_run : Option ℕ → ℕ → Bool
may_run none now = true
may_run (some last_run) now = ltb run_gap (now - last_run)

module _ (local : ℕ → ℕ × ℕ) (schedule : String) (chats : List ℕ) where
  unfoldable pub is_due : Tick → Bool
  unfolding parse_cron_time
  is_due t =
      let (hour, minute) = parse_cron_time schedule in
      (local t.fired).0 == hour && (local t.fired).1 == minute

  -- The loop, with `lastRun`.
  unfoldable pub run : Option ℕ → List Event → List Briefing
  unfolding is_due may_run execute_briefing
  run last_run [] = []
  run last_run (stops ∷ rest) = []
  run last_run (ticks t ∷ rest) =
      let later = run (some t.started) rest in
      let same = run last_run rest in
      if is_due t && may_run last_run t.checked
      then (t.started, execute_briefing chats t.report) ∷ later
      else same
