-- ===== src/Kubernetes/Namespaces.antt =====
-- internal/module/kubernetes/namespace.go: the cached lists of namespaces. `now` is the clock at the
-- check of the cache, `later` at the entry of a new list.
pub mod Freshness
use telekube.Base.{
  ℕ, ◌-◌, ◌*◌, String, Option, none, some, List, ltb, if◌then◌else◌, string_keyed, get, put, Result,
  ok, err,
}

pub record CacheEntry : Type 0 where
  pub names : List String
  pub fetched_at : ℕ

abbrev pub Cache : Type 0
Cache = List (String × CacheEntry)

abbrev pub ttl : ℕ
ttl = 60 * 1000000000

unfoldable pub cached : Cache → ℕ → String → Option (List String)
cached cache now cluster = elim (get cache cluster) [
  | none ↦ none
  | some e ↦ if ltb ttl (now - e.fetched_at) then none else some e.names
]

abbrev pub remember : Cache → ℕ → String → List String → Cache
remember cache now cluster names = put cache cluster (record { names = names; fetched_at = now })

-- `answer` is what the cluster says, if it is asked: the failure to connect and to list are one.
unfoldable pub get_namespaces :
    Cache → ℕ → ℕ → String → Result (List String) → Result (List String) × Cache
unfolding cached
get_namespaces cache now later cluster answer = elim (cached cache now cluster) [
  | some names ↦ (ok names, cache)
  | none ↦ elim answer [
    | err e ↦ (err e, cache)
    | ok names ↦ (ok names, remember cache later cluster names)
  ]
]
