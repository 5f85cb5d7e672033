-- ===== src/Notify/Filter.antt =====
-- internal/module/notify/module.go's `ShouldNotify` and its helpers.
use Prim.Native.Char.{code}
use Prim.Native.String.{compare}
use text.Mathlib.Text.{is_le, is_lt}
use telekube.Base.{
  ℕ, ◌+◌, String, Bool, true, false, not, ◌&&◌, ◌||◌, Option, none, some, List, [], ◌∷◌, ◌==◌,
  nat_keyed, string_keyed, if◌then◌else◌, any, ltb, leb,
}
use telekube.Entity.Preference.{NotificationPreference}

-- unicode.ToLower as far as it gives an ASCII letter: from A to Z, and from the dotted capital I and
-- the kelvin sign.
abbrev pub lower_code : ℕ → ℕ
lower_code n =
    if leb b'A' n && leb n b'Z'
    then n + 32
    else if n == 304
    then b'i'
    else if n == 8490
    then b'k'
    else n

-- strings.ToLower, as the codes of the letters.
unfoldable pub to_lower : String → List ℕ
to_lower String.[] = []
to_lower (String.◌∷◌ c rest) = lower_code (code c) ∷ to_lower rest

unfoldable pub codes_are : List ℕ → String → Bool
codes_are [] String.[] = true
codes_are (n ∷ ns) (String.◌∷◌ c rest) = n == code c && codes_are ns rest
codes_are _ _ = false

unfoldable pub severity_level : String → ℕ
unfolding to_lower codes_are
severity_level s =
    if codes_are (to_lower s) "critical"
    then 3
    else if codes_are (to_lower s) "warning"
    then 2
    else if codes_are (to_lower s) "info"
    then 1
    else 0

unfoldable pub is_in_quiet_hours : String → String → String → Bool
is_in_quiet_hours now start stop =
    if is_le (compare start stop)
    then not (is_lt (compare now start)) && is_lt (compare now stop)
    else not (is_lt (compare now start)) || is_lt (compare now stop)

-- The check of the quiet hours. `clock` is the time of day in a zone, in hours and minutes, if the
-- zone is known.
unfoldable pub is_quiet : (String → Option String) → NotificationPreference → String → Bool
unfolding is_in_quiet_hours
is_quiet clock pref severity = elim pref.quiet_hours_start [
  | none ↦ false
  | some start ↦ elim pref.quiet_hours_end [
    | none ↦ false
    | some stop ↦
        if severity == "critical"
        then false
        else elim (clock (if pref.timezone == "" then "UTC" else pref.timezone)) [
          | none ↦ false
          | some now ↦ is_in_quiet_hours now start stop
        ]
  ]
]

unfoldable pub should_notify :
    (String → Option String) → Option NotificationPreference → String → String → Bool
unfolding severity_level is_quiet
should_notify clock none severity cluster = true
should_notify clock (some pref) severity cluster =
    if any (λ m. m == cluster) pref.muted_clusters
    then false
    else if not (pref.min_severity == "")
        && ltb (severity_level severity) (severity_level pref.min_severity)
    then false
    else not (is_quiet clock pref severity)
