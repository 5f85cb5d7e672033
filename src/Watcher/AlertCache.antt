-- ===== src/Watcher/AlertCache.antt =====
-- The alert cache of internal/module/watcher/pod_watcher.go: when each alert was last sent. Its lock
-- makes every call here one step; the check and the entry of `alert` are two such calls, which one
-- informer makes one after the other.
use telekube.Base.{
  ℕ, ◌+◌, ◌-◌, String, Bool, true, false, Option, none, some, ltb, if◌then◌else◌, ◌==◌,
  string_keyed,
}

abbrev pub default_cooldown : ℕ
default_cooldown = 300_000_000_000

abbrev pub hour : ℕ
hour = 3_600_000_000_000

-- Go's map from alert keys to times.
abbrev pub AlertCache : Type 0
AlertCache = String → Option ℕ

abbrev pub set : AlertCache → String → ℕ → AlertCache
set cache key t = λ k. if key == k then some t else cache k

-- The entry is there and younger than the cooldown; an entry in the future is.
unfoldable pub is_cooling : ℕ → AlertCache → ℕ → String → Bool
is_cooling cooldown cache now key = elim (cache key) [
  | none ↦ false
  | some t ↦ ltb now (t + cooldown)
]

-- The decision of `alert`: whether the alert goes out, and the cache after it.
unfoldable pub admit : ℕ → AlertCache → ℕ → String → Bool × AlertCache
unfolding is_cooling
admit cooldown cache now key =
    if is_cooling cooldown cache now key then (false, cache) else (true, set cache key now)

-- The times are large enough for the subtraction.
unfoldable pub mute_alert : ℕ → AlertCache → ℕ → String → ℕ → AlertCache
mute_alert cooldown cache now key duration = set cache key (now + duration - cooldown)

-- One tick of `cleanupLoop`.
unfoldable pub cleanup : ℕ → AlertCache → ℕ → AlertCache
cleanup cooldown cache now = λ key. elim (cache key) [
  | none ↦ none
  | some t ↦ if ltb (t + cooldown) now then none else some t
]
