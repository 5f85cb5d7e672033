-- ===== src/Watcher/Muting.antt =====
-- Which alerts the mute button of internal/module/watcher/module.go holds back, and how many sets of
-- watchers run.
use telekube.Base.{
  ℕ, ◌+◌, String, Bool, true, false, ◌≡◌, refl, Option, none, some, List, [], ◌∷◌, if◌then◌else◌,
  ltb, string_keyed, arith, Bool-cases, inl, inr, ◌∙◌,
}
use telekube.Watcher.AlertCache.{AlertCache, default_cooldown, hour, is_cooling}
use telekube.Watcher.Cooldown.{is_cooling-mute_alert}
use telekube.Watcher.Rules.{AlertRule}
use telekube.Watcher.Control.{
  Module, new_module, set_custom_rules, start_watchers, stop_watchers, handle_mute, mute_in,
}

-- Whether a watcher with the cache holds back an alert.
abbrev pub holds : ℕ → Option AlertCache → ℕ → String → Bool
holds cooldown none now key = false
holds cooldown (some cache) now key = is_cooling cooldown cache now key

abbrev pub is_there : Option AlertCache → Bool
is_there none = false
is_there (some cache) = true

pub data Step : Type 0 where
  starts stops : Step
  rules_set : List AlertRule → Step
  mutes : ℕ → String → Step

unfoldable pub step : Module → Step → Module
unfolding start_watchers stop_watchers set_custom_rules handle_mute
step m starts = start_watchers m
step m stops = stop_watchers m
step m (rules_set rules) = set_custom_rules m rules
step m (mutes now key) = handle_mute m now key

unfoldable pub run : Module → List Step → Module
unfolding step
run m [] = m
run m (s ∷ rest) = run (step m s) rest

-- One set of watchers lives exactly while the module runs, and then the caches are there.
IsRun : Module → Type 0
IsRun m =
    (m.live ≡ (if m.running then 1 else 0))
    × (m.running ≡ true → (is_there m.pod_cache ≡ true) × (is_there m.node_cache ≡ true))

is_there-mute_in :
    (now : ℕ) (key : String) (o : Option AlertCache) → is_there (mute_in now key o) ≡ is_there o
is_there-mute_in now key none = refl
is_there-mute_in now key (some cache) = refl

step-IsRun : (m : Module) (s : Step) → IsRun m → IsRun (step m s)
unfolding step IsRun start_watchers stop_watchers set_custom_rules handle_mute
step-IsRun m starts (live, there) = elim (Bool-cases m.running) [
  | inl on ↦ rw (on, start_watchers) (ground arith, λ e. there on)
  | inr off ↦ rw (off, start_watchers) (ground arith, λ e. (refl, refl))
]
step-IsRun m stops (live, there) = elim (Bool-cases m.running) [
  | inl on ↦ rw (on, stop_watchers) (ground arith, λ e. there on)
  | inr off ↦ rw (off, stop_watchers) (ground arith, λ e. absurd (ground arith))
]
step-IsRun m (rules_set rules) (live, there) = (live, there)
step-IsRun m (mutes now key) (live, there) = (
  live,
  λ on. (
    is_there-mute_in now key m.pod_cache ∙ (there on).0,
    is_there-mute_in now key m.node_cache ∙ (there on).1,
  ),
)

run-IsRun : (steps : List Step) (m : Module) → IsRun m → IsRun (run m steps)
unfolding run
run-IsRun [] m is = is
run-IsRun (s ∷ rest) m is = run-IsRun rest (step m s) (step-IsRun m s is)

new_module-IsRun : IsRun new_module
unfolding IsRun
new_module-IsRun = (refl, λ e. absurd cc)

holds-mute_in :
    (now later : ℕ) (key : String) (o : Option AlertCache)
    → is_there o ≡ true
    → holds default_cooldown (mute_in now key o) later key ≡ ltb later (now + hour)
holds-mute_in now later key none there = absurd cc
holds-mute_in now later key (some cache) there = is_cooling-mute_alert cache now later key

-- After any starts, stops, changes of the rules and mutes, one set of watchers lives if the module runs, and
-- none otherwise. A press of the mute button while it runs holds back the alerts of its key in the pod and
-- the node watcher for exactly an hour, and those of the other watchers and of the rules not at all.
pub run-handle_mute :
    (steps : List Step) (now later cooldown : ℕ) (key : String)
    → ((run new_module steps).live ≡ (if (run new_module steps).running then 1 else 0))
      × ((run new_module steps).running ≡ true
          → (holds default_cooldown (handle_mute (run new_module steps) now key).pod_cache later key
              ≡ ltb later (now + hour))
            × (holds default_cooldown
                  (handle_mute (run new_module steps) now key).node_cache
                  later
                  key
                ≡ ltb later (now + hour)))
      × (holds cooldown (handle_mute (run new_module steps) now key).cron_job_cache later key
          ≡ holds cooldown (run new_module steps).cron_job_cache later key)
      × (holds cooldown (handle_mute (run new_module steps) now key).cert_cache later key
          ≡ holds cooldown (run new_module steps).cert_cache later key)
      × (holds cooldown (handle_mute (run new_module steps) now key).pvc_cache later key
          ≡ holds cooldown (run new_module steps).pvc_cache later key)
      × (holds cooldown (handle_mute (run new_module steps) now key).rule_cache later key
          ≡ holds cooldown (run new_module steps).rule_cache later key)
unfolding handle_mute IsRun
run-handle_mute steps now later cooldown key =
    let (live, there) = run-IsRun steps new_module new_module-IsRun in
    (
      live,
      λ on. (
        holds-mute_in now later key (run new_module steps).pod_cache (there on).0,
        holds-mute_in now later key (run new_module steps).node_cache (there on).1,
      ),
      refl,
      refl,
      refl,
      refl,
    )
