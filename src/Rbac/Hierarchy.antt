-- ===== src/Rbac/Hierarchy.antt =====
-- The built-in roles of internal/rbac/defaults.go are a ladder: what the legacy check of
-- internal/rbac/engine.go grants to one it grants to the next.
use telekube.Base.{
  ℕ, zero, suc, ◌≤◌, String, Bool, true, false, ◌≡◌, refl, ◌&&◌, some, List, [], ◌∷◌, string_keyed,
  contains, get, ok, arith, eq_iff,
}
use mathlib.Core.Path.{subst}
use native.Mathlib.Decide.{dec_le}
use telekube.Entity.User.{role_viewer, role_operator, role_on_call, role_admin, role_super_admin}
use telekube.Rbac.Defaults.{viewer_perms, operator_perms, on_call_perms, admin_perms}
use telekube.Rbac.Repository.{RbacRepository}
use telekube.Rbac.Engine.{new_engine, has_permission, is_super_admin}

-- The roles from the weakest to the strongest.
abbrev pub ladder : ℕ → String
ladder zero = role_viewer
ladder (suc zero) = role_operator
ladder (suc (suc zero)) = role_on_call
ladder (suc (suc (suc zero))) = role_admin
ladder _ = role_super_admin

abbrev ladder_perms : ℕ → List String
ladder_perms zero = viewer_perms
ladder_perms (suc zero) = operator_perms
ladder_perms (suc (suc zero)) = on_call_perms
ladder_perms _ = admin_perms

get-ladder :
    (now : ℕ) (d : String) (ids : List ℕ) (i : ℕ)
    → get (new_engine now d ids).builtin_perms (ladder i) ≡ some (ladder_perms i)
unfolding new_engine
get-ladder now d ids zero = refl
get-ladder now d ids (suc zero) = refl
get-ladder now d ids (suc (suc zero)) = refl
get-ladder now d ids (suc (suc (suc zero))) = refl
get-ladder now d ids (suc (suc (suc (suc i)))) = refl

-- Every text of one list stands in the other.
abbrev all_in : List String → List String → Bool
all_in [] ys = true
all_in (x ∷ xs) ys = contains ys x && all_in xs ys

contains-all_in :
    (xs ys : List String) (p : String)
    → all_in xs ys ≡ true
    → contains xs p ≡ true
    → contains ys p ≡ true
contains-all_in [] ys p h c = cc
contains-all_in (x ∷ xs) ys p h c = ground (arith, eq_iff x p, contains-all_in xs ys p)

all_in-ladder : (i : ℕ) → all_in (ladder_perms i) (ladder_perms (suc i)) ≡ true
all_in-ladder zero = refl
all_in-ladder (suc zero) = refl
all_in-ladder (suc (suc zero)) = refl
all_in-ladder (suc (suc (suc i))) = refl

ladder_perms_mono :
    (i j : ℕ) (p : String)
    → i ≤ j
    → contains (ladder_perms i) p ≡ true
    → contains (ladder_perms j) p ≡ true
ladder_perms_mono zero zero p h c = c
ladder_perms_mono (suc i) zero p h c = absurd (omega arith)
ladder_perms_mono i (suc j) p h c = elim (dec_le i j) [
  | yes below ↦
      contains-all_in (ladder_perms j) (ladder_perms (suc j)) p (all_in-ladder j)
        (ladder_perms_mono i j p below c)
  | no top ↦ let e : i ≡ suc j = omega arith in subst (λ k. contains (ladder_perms k) p ≡ true) e c
]

module _ {S : Type 0} (repo : RbacRepository S) (s : S) (now : ℕ) (d : String) (ids : List ℕ) where
  has_permission-ladder :
      (i u : ℕ) (p : String)
      → repo.get_user_role s u ≡ ok (ladder i)
      → is_super_admin (new_engine now d ids) u ≡ false
      → has_permission repo (new_engine now d ids) s u p ≡ ok (contains (ladder_perms i) p)
  unfolding has_permission
  has_permission-ladder i u p role plain = ground (arith, get-ladder now d ids i)

  -- A user with a role of the ladder has every flat permission that a user with a lower role has.
  pub has_permission_mono :
      (i j u v : ℕ) (p : String)
      → i ≤ j
      → repo.get_user_role s u ≡ ok (ladder i)
      → repo.get_user_role s v ≡ ok (ladder j)
      → is_super_admin (new_engine now d ids) u ≡ false
      → has_permission repo (new_engine now d ids) s u p ≡ ok true
      → has_permission repo (new_engine now d ids) s v p ≡ ok true
  unfolding has_permission
  has_permission_mono i j u v p le ru rv plain granted = ground (
    arith,
    has_permission-ladder i u p ru plain,
    has_permission-ladder j v p rv,
    ladder_perms_mono i j p le,
  )
