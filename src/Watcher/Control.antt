-- ===== src/Watcher/Control.antt =====
-- internal/module/watcher/module.go: the start and the stop of the watchers, and the mute button. A
-- watcher is its alert cache; `live` counts the contexts that are not cancelled.
-- The watchers of ArgoCD, which are registered by their configuration, are left out.
use telekube.Base.{
  ℕ, ◌+◌, ◌-◌, String, Bool, true, false, Option, none, some, List, [], ◌∷◌, if◌then◌else◌,
}
use telekube.Watcher.AlertCache.{AlertCache, default_cooldown, hour, mute_alert}
use telekube.Watcher.Rules.{AlertRule}

pub record Module : Type 0 where
  pub running : Bool
  pub live : ℕ
  pub pod_cache : Option AlertCache
  pub node_cache : Option AlertCache
  pub cron_job_cache : Option AlertCache
  pub cert_cache : Option AlertCache
  pub pvc_cache : Option AlertCache
  pub rule_cache : Option AlertCache
  pub custom_rules : List AlertRule

abbrev pub no_alerts : Option AlertCache
no_alerts = some (λ key. none)

abbrev pub new_module : Module
new_module = record {
  running = false;
  live = 0;
  pod_cache = none;
  node_cache = none;
  cron_job_cache = none;
  cert_cache = none;
  pvc_cache = none;
  rule_cache = none;
  custom_rules = [];
}

unfoldable pub set_custom_rules : Module → List AlertRule → Module
set_custom_rules m rules = record m { custom_rules = rules }

unfoldable pub start_watchers : Module → Module
start_watchers m = if m.running then m else record m {
  running = true;
  live = m.live + 1;
  pod_cache = no_alerts;
  node_cache = no_alerts;
  cron_job_cache = no_alerts;
  cert_cache = no_alerts;
  pvc_cache = no_alerts;
  rule_cache = elim m.custom_rules [ [] ↦ m.rule_cache | r ∷ rs ↦ no_alerts ];
}

-- The watchers stay where they are, as does the function that cancels their context.
unfoldable pub stop_watchers : Module → Module
stop_watchers m = if m.running then record m { running = false; live = m.live - 1 } else m

abbrev pub mute_in : ℕ → String → Option AlertCache → Option AlertCache
mute_in now key none = none
mute_in now key (some cache) = some (mute_alert default_cooldown cache now key hour)

unfoldable pub handle_mute : Module → ℕ → String → Module
unfolding mute_alert
handle_mute m now key = record m {
  pod_cache = mute_in now key m.pod_cache;
  node_cache = mute_in now key m.node_cache;
}
