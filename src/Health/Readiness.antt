-- ===== src/Health/Readiness.antt =====
-- When pkg/health/checker.go answers that the bot is ready.
use Prim.Native.String.{count, ◌++◌ as concat}
use text.Mathlib.TextLemmas.{length-append}
use telekube.Base.{
  arith, Bool-cases, String, Bool, true, false, none, some, [], ◌∷◌, if◌then◌else◌, ◌==◌,
  string_keyed, Error, ◌≡◌, refl, ap, Option-cases, inl, inr, ◌&&◌,
}
use telekube.Health.{CheckFunc, Checker, result_of, check_all, all_healthy, is_ready, handle_readyz}

-- The text of a failed check is never the one of a check that passes: it is longer.
unhealthy : (s : String) → (concat "unhealthy: " s == "healthy") ≡ false
unhealthy s = elim (Bool-cases (concat "unhealthy: " s == "healthy")) [
  | inl same ↦
      let e = (string_keyed.same_iff (concat "unhealthy: " s) "healthy").0 same in
      absurd (omega (arith, length-append "unhealthy: " s, ap count e))
  | inr other ↦ other
]

module _ {W : Type 0} (w : W) where
  -- The check finds nothing wrong.
  abbrev passes : CheckFunc W → Bool
  passes check = elim (check w) [ none ↦ true | some e ↦ false ]

  abbrev all_pass : Checker W → Bool
  all_pass [] = true
  all_pass ((name, check) ∷ rest) = passes check && all_pass rest

module _ {W : Type 0} (text : Error → String) (w : W) where
  all_healthy-check_all : (c : Checker W) → all_healthy (check_all text w c) ≡ all_pass w c
  unfolding all_healthy check_all result_of
  all_healthy-check_all [] = refl
  all_healthy-check_all ((name, check) ∷ rest) = elim (Option-cases (check w)) [
    | inl fine ↦ rw (passes, result_of, fine) (all_healthy-check_all rest)
    | inr (e, bad) ↦ rw (passes, result_of, bad, unhealthy (text e)) refl
  ]

  -- The bot is ready, and the endpoint answers 200, if every registered check passes, whatever the texts of
  -- the errors are; otherwise the endpoint answers 503.
  handle_readyz-all_pass :
      (c : Checker W)
      → (is_ready text w c ≡ all_pass w c)
        × ((handle_readyz text w c).status_code ≡ (if all_pass w c then 200 else 503))
  unfolding is_ready handle_readyz
  handle_readyz-all_pass c = (
    all_healthy-check_all c,
    elim (Bool-cases (all_pass w c)) [
      | inl ready ↦ rw (handle_readyz, all_healthy-check_all c, ready) refl
      | inr not_ready ↦ rw (handle_readyz, all_healthy-check_all c, not_ready) refl
    ],
  )
