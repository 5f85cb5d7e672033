-- ===== src/Health.antt =====
-- pkg/health/checker.go: the registered checks and the two endpoints. A check asks the state W of what it
-- depends on; its timeout is one of its errors, with the text of an error as an argument. Serving HTTP and
-- encoding the answer are the standard library's.
pub mod Readiness
mod Tests
use Prim.Native.String.{◌++◌ as concat}
use telekube.Base.{
  ℕ, String, Bool, true, false, Option, none, some, List, [], ◌∷◌, put, if◌then◌else◌, ◌==◌,
  string_keyed, Error,
}

abbrev pub CheckFunc : Type 0 → Type 0
CheckFunc W = W → Option Error

-- Go's map from the names of the checks.
abbrev pub Checker : Type 0 → Type 0
Checker W = List (String × CheckFunc W)

pub record Answer : Type 0 where
  pub status_code : ℕ
  pub status : String
  pub checks : List (String × String)

module _ {W : Type 0} where
  abbrev pub new_checker : Checker W
  new_checker = []

  unfoldable pub register : Checker W → String → CheckFunc W → Checker W
  register c name check = put c name check

-- The loop over the results, which returns at the first that is not healthy.
unfoldable pub all_healthy : List (String × String) → Bool
all_healthy [] = true
all_healthy ((name, status) ∷ rest) =
    let others = all_healthy rest in if status == "healthy" then others else false

module _ {W : Type 0} (text : Error → String) (w : W) where
  unfoldable pub result_of : CheckFunc W → String
  result_of check = elim (check w) [ none ↦ "healthy" | some e ↦ concat "unhealthy: " (text e) ]

  unfoldable pub check_all : Checker W → List (String × String)
  unfolding result_of
  check_all [] = []
  check_all ((name, check) ∷ rest) = (name, result_of check) ∷ check_all rest

  unfoldable pub is_ready : Checker W → Bool
  unfolding check_all all_healthy
  is_ready c = all_healthy (check_all c)

  unfoldable pub handle_healthz : Answer
  handle_healthz = record { status_code = 200; status = "ok"; checks = [] }

  unfoldable pub handle_readyz : Checker W → Answer
  unfolding check_all all_healthy
  handle_readyz c =
      let results = check_all c in
      if all_healthy results
      then record { status_code = 200; status = "ready"; checks = results }
      else record { status_code = 503; status = "not_ready"; checks = results }
