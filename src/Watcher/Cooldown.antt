-- ===== src/Watcher/Cooldown.antt =====
-- How often an alert of internal/module/watcher/pod_watcher.go goes out.
use telekube.Base.{
  ℕ, ◌+◌, ◌-◌, ◌≤◌, ◌≡◌, refl, sym, ◌∙◌, String, Bool, Bool-cases, inl, inr, true, false, ◌&&◌,
  none, List, [], ◌∷◌, if◌then◌else◌, ltb, ◌==◌, same_refl, string_keyed, All, arith,
}
use telekube.Watcher.AlertCache.{
  AlertCache, default_cooldown, hour, set, is_cooling, admit, mute_alert, cleanup,
}

-- What happens to the cache, each at its time: an alert is raised, its mute button is pressed, the
-- cleanup ticks.
pub data Event : Type 0 where
  raised : ℕ → String → Event
  muted : ℕ → String → Event
  cleaned : ℕ → Event

abbrev pub time_of : Event → ℕ
time_of (raised now key) = now
time_of (muted now key) = now
time_of (cleaned now) = now

abbrev pub IsOrdered : ℕ → List Event → Type 0
IsOrdered clock [] = Unit
IsOrdered clock (e ∷ rest) = (clock ≤ time_of e) × IsOrdered (time_of e) rest

-- One event, with the alert that it sends.
unfoldable pub handle_event : AlertCache → Event → Bool × AlertCache
unfolding admit mute_alert cleanup
handle_event cache (raised now key) = admit default_cooldown cache now key
handle_event cache (muted now key) = (false, mute_alert default_cooldown cache now key hour)
handle_event cache (cleaned now) = (false, cleanup default_cooldown cache now)

abbrev pub is_about : String → Event → Bool
is_about key (raised now k) = k == key
is_about key (muted now k) = k == key
is_about key (cleaned now) = false

-- The times at which the alert with the key is sent, the last one first, before those in `log`.
unfoldable pub sent : String → AlertCache → List Event → List ℕ → List ℕ
unfolding handle_event
sent key cache [] log = log
sent key cache (e ∷ rest) log =
    let (goes_out, cache') = handle_event cache e in
    sent key cache' rest (if goes_out && is_about key e then time_of e ∷ log else log)

-- Each time is a cooldown or more after all the earlier ones.
abbrev pub IsSpaced : List ℕ → Type 0
IsSpaced [] = Unit
IsSpaced (t ∷ earlier) = All (λ s. s + default_cooldown ≤ t) earlier × IsSpaced earlier

All-later : (log : List ℕ) (d m n : ℕ) → m ≤ n → All (λ s. s + d ≤ m) log → All (λ s. s + d ≤ n) log
All-later [] d m n le all = tt
All-later (s ∷ log) d m n le (h, all) = (omega arith, All-later log d m n le all)

All-longer :
    (log : List ℕ) (m n : ℕ)
    → m + default_cooldown ≤ n
    → All (λ s. s + 0 ≤ m) log
    → All (λ s. s + default_cooldown ≤ n) log
All-longer [] m n le all = tt
All-longer (s ∷ log) m n le (h, all) = (omega arith, All-longer log m n le all)

-- The log is in the past, and an alert that is not cooling was last sent a cooldown or more ago.
record Covers (key : String) (cache : AlertCache) (clock : ℕ) (log : List ℕ) : Type 0 where
  past : All (λ s. s + 0 ≤ clock) log
  cooled :
      (now : ℕ)
      → clock ≤ now
      → is_cooling default_cooldown cache now key ≡ false
      → All (λ s. s + default_cooldown ≤ now) log

is_cooling_other :
    (cache : AlertCache) (k : String) (t now : ℕ) (key : String)
    → (k == key) ≡ false
    → is_cooling default_cooldown (set cache k t) now key
      ≡ is_cooling default_cooldown cache now key
unfolding is_cooling
is_cooling_other cache k t now key other = rw (other, is_cooling) refl

-- An event that sends no alert with the key.
quiet-Covers :
    (key : String) (cache : AlertCache) (clock : ℕ) (e : Event) (log : List ℕ)
    → clock ≤ time_of e
    → ((handle_event cache e).0 && is_about key e) ≡ false
    → Covers key cache clock log
    → Covers key (handle_event cache e).1 (time_of e) log
unfolding handle_event is_cooling
quiet-Covers key cache clock (raised t k) log le quiet covers = record {
  past = All-later log 0 clock t le covers.past;
  cooled =
      λ now after h. covers.cooled now (omega arith) (ground (arith, string_keyed.same_iff k key));
}
quiet-Covers key cache clock (muted t k) log le quiet covers = record {
  past = All-later log 0 clock t le covers.past;
  cooled = λ now after h. elim (Bool-cases (k == key)) [
    | inl same ↦ All-longer log clock now (ground arith) covers.past
    | inr other ↦
        covers.cooled now (omega arith)
          (sym (is_cooling_other cache k (t + hour - default_cooldown) now key other) ∙ h)
  ];
}
quiet-Covers key cache clock (cleaned t) log le quiet covers = record {
  past = All-later log 0 clock t le covers.past;
  cooled = λ now after h. covers.cooled now (omega arith) (ground arith);
}

-- An event that sends an alert with the key.
loud-Covers :
    (key : String) (cache : AlertCache) (clock : ℕ) (e : Event) (log : List ℕ)
    → clock ≤ time_of e
    → ((handle_event cache e).0 && is_about key e) ≡ true
    → Covers key cache clock log
    → All (λ s. s + default_cooldown ≤ time_of e) log
      × Covers key (handle_event cache e).1 (time_of e) (time_of e ∷ log)
unfolding handle_event is_cooling
loud-Covers key cache clock (raised t k) log le loud covers =
    let spaced = covers.cooled t le (ground (arith, string_keyed.same_iff k key)) in
    (
      spaced,
      record {
        past = (omega arith, All-later log 0 clock t le covers.past);
        cooled = λ now after h.
            let later : t + default_cooldown ≤ now = ground (arith, string_keyed.same_iff k key) in
            (later, All-later log default_cooldown t now after spaced);
      },
    )
loud-Covers key cache clock (muted t k) log le loud covers = ground arith
loud-Covers key cache clock (cleaned t) log le loud covers = ground arith

sent-Covers :
    (key : String) (cache : AlertCache) (clock : ℕ) (events : List Event) (log : List ℕ)
    → IsOrdered clock events
    → Covers key cache clock log
    → IsSpaced log
    → IsSpaced (sent key cache events log)
unfolding sent
sent-Covers key cache clock [] log ordered covers spaced = spaced
sent-Covers key cache clock (e ∷ rest) log (le, ordered) covers spaced =
    elim (Bool-cases ((handle_event cache e).0 && is_about key e)) [
      | inl loud ↦
          let (space, covers') = loud-Covers key cache clock e log le loud covers in
          rw loud (
            sent-Covers key (handle_event cache e).1 (time_of e) rest (time_of e ∷ log) ordered
              covers' (space, spaced))
      | inr quiet ↦ rw quiet (
          sent-Covers key (handle_event cache e).1 (time_of e) rest log ordered
            (quiet-Covers key cache clock e log le quiet covers) spaced)
    ]

-- Whatever alerts are raised, muted for an hour and cleaned up, in the order of the clock, an alert
-- is never sent again within the cooldown.
pub sent-IsSpaced :
    (key : String) (events : List Event)
    → IsOrdered 0 events
    → IsSpaced (sent key (λ k. none) events [])
sent-IsSpaced key events ordered =
    sent-Covers key (λ k. none) 0 events [] ordered
      (record { past = tt; cooled = λ now after h. tt }) tt

-- A muted alert is cooling until the hour is over, and not any longer.
pub is_cooling-mute_alert :
    (cache : AlertCache) (now later : ℕ) (key : String)
    → is_cooling default_cooldown (mute_alert default_cooldown cache now key hour) later key
      ≡ ltb later (now + hour)
unfolding is_cooling mute_alert
is_cooling-mute_alert cache now later key = ground (arith, same_refl key)

-- The cleanup changes no later decision.
is_cooling-cleanup :
    (cooldown : ℕ) (cache : AlertCache) (now later : ℕ) (key : String)
    → now ≤ later
    → is_cooling cooldown (cleanup cooldown cache now) later key
      ≡ is_cooling cooldown cache later key
unfolding is_cooling cleanup
is_cooling-cleanup cooldown cache now later key le = ground arith
