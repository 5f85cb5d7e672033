-- ===== src/Health/Tests.antt =====
-- Answers of the readiness endpoint.
use telekube.Base.{
  String, none, some, [], ◌∷◌, ◌≡◌, refl, not_found, ◌==◌, string_keyed, if◌then◌else◌,
}
use telekube.Health.{
  Checker, new_checker, register, handle_readyz, check_all, result_of, all_healthy,
}

-- The state is the name of the part that is down.
abbrev checker : Checker String
checker =
    ("storage", λ down. if down == "storage" then some not_found else none)
    ∷ ("clusters", λ down. if down == "clusters" then some not_found else none)
    ∷ []

abbrev fixed : Checker String
fixed = ("clusters", λ down. none) ∷ []

-- A second check under a name replaces the first.
is_registered :
    register (register new_checker "clusters" (λ down. some not_found)) "clusters" (λ down. none)
    ≡ fixed
unfolding register
is_registered = refl

is_down : handle_readyz (λ e. "not found") "clusters" checker ≡ record {
  status_code = 503;
  status = "not_ready";
  checks = ("storage", "healthy") ∷ ("clusters", "unhealthy: not found") ∷ [];
}
unfolding handle_readyz check_all result_of all_healthy
is_down = refl
