-- ===== src/Storage/Freezes/Blocking.antt =====
-- Which freezes the queries of internal/storage/sqlite/freeze_repo.go find.
use telekube.Base.{
  ℕ, ◌≤◌, ◌≡◌, String, Bool, true, false, ◌&&◌, not, Option-cases, inl, inr, none, some, List, [],
  ◌∷◌, ◌==◌, string_keyed, any, All, arith, refl, ◌↔◌,
}
use telekube.Entity.Freeze.{DeploymentFreeze, is_active}
use telekube.Storage.Freezes.{newest, covers, thaw_rows}

pub newest-none :
    (p : DeploymentFreeze → Bool) (t : List DeploymentFreeze)
    → (newest p t ≡ none) ↔ (any p t ≡ false)
unfolding newest
newest-none p [] = ground arith
newest-none p (f ∷ rest) = ground (arith, newest-none p rest)

pub newest-passes :
    (p : DeploymentFreeze → Bool) (t : List DeploymentFreeze) (f : DeploymentFreeze)
    → newest p t ≡ some f
    → p f ≡ true
unfolding newest
newest-passes p [] f e = ground arith
newest-passes p (g ∷ rest) f e = ground (arith, newest-passes p rest f)

All-fail :
    (p : DeploymentFreeze → Bool) (t : List DeploymentFreeze) (n : ℕ)
    → any p t ≡ false
    → All (λ g. p g ≡ true → g.created_at ≤ n) t
All-fail p [] n e = tt
All-fail p (g ∷ rest) n e = (ground arith, All-fail p rest n (ground arith))

All-later :
    (p : DeploymentFreeze → Bool) (t : List DeploymentFreeze) (m n : ℕ)
    → m ≤ n
    → All (λ g. p g ≡ true → g.created_at ≤ m) t
    → All (λ g. p g ≡ true → g.created_at ≤ n) t
All-later p [] m n le all = tt
All-later p (g ∷ rest) m n le (h, all) = (λ e. ground (arith, h e), All-later p rest m n le all)

pub newest-All :
    (p : DeploymentFreeze → Bool) (t : List DeploymentFreeze) (f : DeploymentFreeze)
    → newest p t ≡ some f
    → All (λ g. p g ≡ true → g.created_at ≤ f.created_at) t
unfolding newest
newest-All p [] f e = tt
newest-All p (g ∷ rest) f e = elim (Option-cases (newest p rest)) [
  | inl gone ↦ (λ h. ground arith, All-fail p rest f.created_at ((newest-none p rest).0 gone))
  | inr (later, found) ↦
      let le : later.created_at ≤ f.created_at = ground arith in
      (
        λ h. ground arith,
        All-later p rest later.created_at f.created_at le (newest-All p rest later found),
      )
]

-- A thawed freeze blocks nothing; the others block what they did.
covers-thaw_rows :
    (t : List DeploymentFreeze) (now later by : ℕ) (id cluster : String)
    → any (covers later cluster) (thaw_rows t now id by)
      ≡ any (λ f. not (f.id == id) && covers later cluster f) t
unfolding covers thaw_rows is_active
covers-thaw_rows [] now later by id cluster = refl
covers-thaw_rows (f ∷ rest) now later by id cluster =
    ground (arith, covers-thaw_rows rest now later by id cluster)
