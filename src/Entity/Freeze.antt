-- ===== src/Entity/Freeze.antt =====
-- internal/entity/freeze.go: deployment freezes.
use telekube.Base.{ℕ, ◌-◌, String, Bool, true, false, ◌&&◌, Option, none, some, ltb, if◌then◌else◌}

pub record DeploymentFreeze : Type 0 where
  pub id : String
  pub scope : String
  pub reason : String
  pub created_by : ℕ
  pub created_at : ℕ
  pub expires_at : ℕ
  pub thawed_at : Option ℕ
  pub thawed_by : Option ℕ

-- `p == nil`
abbrev pub is_none {ℓ} : {A : Type ℓ} → Option A → Bool
is_none none = true
is_none (some a) = false

unfoldable pub is_active : ℕ → DeploymentFreeze → Bool
is_active now f = is_none f.thawed_at && ltb now f.expires_at

-- The subtraction cannot go below zero after the test, so the second test of the source never fires.
unfoldable pub remaining_duration : ℕ → DeploymentFreeze → ℕ
unfolding is_active
remaining_duration now f =
    if is_active now f then (if ltb f.expires_at now then 0 else f.expires_at - now) else 0
