-- ===== src/Middleware/RateLimit.antt =====
-- internal/bot/middleware/ratelimit.go: the sliding window of each user's requests. The lock makes each
-- call of `allow` one step. The compaction in place writes only cells in front of the ones it reads, so
-- it is a filter.
use telekube.Base.{
  ℕ, ◌+◌, Bool, true, false, Option, none, some, List, [], ◌∷◌, ◌++◌, nat_keyed, if◌then◌else◌, leb,
  ltb, get, put, select, length,
}

abbrev pub minute : ℕ
minute = 60_000_000_000

pub record RateLimiter : Type 0 where
  pub requests : List (ℕ × List ℕ)
  pub max_per_min : ℕ

-- A limit that is not positive is 0 here.
unfoldable pub rate_limit : ℕ → RateLimiter
rate_limit msgs_per_min = record {
  requests = [];
  max_per_min = if leb msgs_per_min 0 then 30 else msgs_per_min;
}

-- `t.After(cutoff)`, with the cutoff one minute before `now`.
abbrev pub is_valid : ℕ → ℕ → Bool
is_valid now t = ltb now (t + minute)

-- `rl.requests[userID]`: no entry reads as the empty list.
abbrev pub times_of : List (ℕ × List ℕ) → ℕ → List ℕ
times_of requests user_id = elim (get requests user_id) [ none ↦ [] | some times ↦ times ]

unfoldable pub allow : RateLimiter → ℕ → ℕ → Bool × RateLimiter
allow rl now user_id =
    let times = select (is_valid now) (times_of rl.requests user_id) in
    if leb rl.max_per_min (length times)
    then (false, record rl { requests = put rl.requests user_id times })
    else (true, record rl { requests = put rl.requests user_id (times ++ now ∷ []) })

-- What the middleware does with an update: it passes it on, or answers "Slow down!". An update without
-- a sender passes.
pub data Verdict : Type 0 where
  next : Verdict
  slow_down : Verdict

unfoldable pub handle : RateLimiter → ℕ → Option ℕ → Verdict × RateLimiter
unfolding allow
handle rl now none = (next, rl)
handle rl now (some user_id) =
    let (allowed, rl') = allow rl now user_id in (if allowed then next else slow_down, rl')
