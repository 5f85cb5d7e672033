-- ===== src/Middleware/Window.antt =====
-- The bound of internal/bot/middleware/ratelimit.go over every window of a minute.
use telekube.Base.{
  ℕ, ◌+◌, ◌≤◌, ◌≡◌, refl, Bool, ◌&&◌, List, [], ◌∷◌, ◌++◌, nat_keyed, if◌then◌else◌, leb, ltb,
  get-put, select, length, count_if, arith, ◌==◌,
}
use telekube.Middleware.RateLimit.{RateLimiter, minute, is_valid, times_of, allow, rate_limit}

-- `t` lies in the minute that ends at `T`.
abbrev pub is_within : ℕ → ℕ → Bool
is_within T t = leb t T && ltb T (t + minute)

count_if-append :
    (p : ℕ → Bool) (xs ys : List ℕ) → count_if p (xs ++ ys) ≡ count_if p xs + count_if p ys
count_if-append p [] ys = omega arith
count_if-append p (x ∷ xs) ys = ground (arith, count_if-append p xs ys)

count_if-le : (p : ℕ → Bool) (xs : List ℕ) → count_if p xs ≤ length xs
count_if-le p [] = omega arith
count_if-le p (x ∷ xs) = ground (arith, count_if-le p xs)

-- The requests that a later window counts survive the compaction.
count_if-select :
    (T now : ℕ) (xs : List ℕ)
    → now ≤ T
    → count_if (is_within T) (select (is_valid now) xs) ≡ count_if (is_within T) xs
count_if-select T now [] le = refl
count_if-select T now (x ∷ xs) le = ground (arith, count_if-select T now xs le)

-- The updates of all users as they arrive: each has its time and its sender.
abbrev pub Arrivals : Type 0
Arrivals = List (ℕ × ℕ)

-- The clock does not go back.
abbrev pub IsOrdered : ℕ → Arrivals → Type 0
IsOrdered clock [] = Unit
IsOrdered clock ((now, u) ∷ rest) = (clock ≤ now) × IsOrdered now rest

-- The times at which requests of the user are let through, before those in `log`.
unfoldable pub admitted : ℕ → RateLimiter → Arrivals → List ℕ → List ℕ
unfolding allow
admitted user rl [] log = log
admitted user rl ((now, u) ∷ rest) log =
    let (allowed, rl') = allow rl now u in
    admitted user rl' rest (if allowed && (u == user) then now ∷ log else log)

-- The log agrees with the stored requests on every later window, and keeps the bound.
record Agrees (user : ℕ) (rl : RateLimiter) (clock : ℕ) (log : List ℕ) : Type 0 where
  later :
      (T : ℕ)
      → clock ≤ T
      → count_if (is_within T) log ≡ count_if (is_within T) (times_of rl.requests user)
  bounded : (T : ℕ) → count_if (is_within T) log ≤ rl.max_per_min

allow-Agrees :
    (user : ℕ) (rl : RateLimiter) (clock now u : ℕ) (log : List ℕ)
    → clock ≤ now
    → Agrees user rl clock log
    → Agrees user
        (allow rl now u).1
        now
        (if (allow rl now u).0 && (u == user) then now ∷ log else log)
unfolding allow
allow-Agrees user rl clock now u log le agrees = record {
  later = λ T after. ground (
    arith,
    get-put rl.requests u user (select (is_valid now) (times_of rl.requests u)),
    get-put rl.requests u user (select (is_valid now) (times_of rl.requests u) ++ now ∷ []),
    nat_keyed.same_iff u user,
    count_if-select T now (times_of rl.requests user) after,
    count_if-append (is_within T) (select (is_valid now) (times_of rl.requests user)) (now ∷ []),
    agrees.later T (omega arith),
  );
  bounded = λ T. ground (
    arith,
    nat_keyed.same_iff u user,
    count_if-select T now (times_of rl.requests user),
    count_if-le (is_within T) (select (is_valid now) (times_of rl.requests user)),
    agrees.bounded T,
    agrees.later T,
  );
}

allow_max : (rl : RateLimiter) (now u : ℕ) → (allow rl now u).1.max_per_min ≡ rl.max_per_min
unfolding allow
allow_max rl now u = ground arith

admitted-Agrees :
    (user : ℕ) (rl : RateLimiter) (clock : ℕ) (ops : Arrivals) (log : List ℕ) (T : ℕ)
    → IsOrdered clock ops
    → Agrees user rl clock log
    → count_if (is_within T) (admitted user rl ops log) ≤ rl.max_per_min
unfolding admitted
admitted-Agrees user rl clock [] log T ordered agrees = agrees.bounded T
admitted-Agrees user rl clock ((now, u) ∷ rest) log T (le, ordered) agrees = omega (
  arith,
  allow_max rl now u,
  admitted-Agrees user (allow rl now u).1 now rest
      (if (allow rl now u).0 && (u == user) then now ∷ log else log) T ordered
      (allow-Agrees user rl clock now u log le agrees),
)

-- However the users' requests arrive, in the order of the clock, no minute holds more requests of a
-- user that were let through than the limit, which is 30 if none is configured.
pub admitted-le :
    (user limit : ℕ) (ops : Arrivals) (T : ℕ)
    → IsOrdered 0 ops
    → count_if (is_within T) (admitted user (rate_limit limit) ops [])
      ≤ (if leb limit 0 then 30 else limit)
unfolding rate_limit
admitted-le user limit ops T ordered =
    admitted-Agrees user (rate_limit limit) 0 ops [] T ordered
      (record { later = λ T after. refl; bounded = λ T. omega arith })
