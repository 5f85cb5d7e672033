-- ===== src/Base/Maps.antt =====
-- Go's maps as association lists: the first entry of a key counts. The order of iteration, which Go
-- leaves open, is never relied on.
use mathlib.Core.Path.{◌≡◌}
use mathlib.Core.Option.{Option, none, some}
use mathlib.Core.List.{List, [], ◌∷◌}
use native.Mathlib.Omega.{arith}
use telekube.Base.Tests.{if◌then◌else◌, Keyed, ◌==◌}

module _ {ℓ κ} {K : Type ℓ} {V : Type κ} ⦃e : Keyed K⦄ where
  -- v, ok := m[k]
  abbrev pub get : List (K × V) → K → Option V
  get [] k = none
  get ((j, v) ∷ m) k = if j == k then some v else get m k

  -- delete(m, k)
  abbrev pub without : List (K × V) → K → List (K × V)
  without [] k = []
  without ((j, v) ∷ m) k = let rest = without m k in if j == k then rest else (j, v) ∷ rest

  -- m[k] = v
  abbrev pub put : List (K × V) → K → V → List (K × V)
  put m k v = (k, v) ∷ without m k

  pub get-without :
      (m : List (K × V)) (k j : K) → get (without m k) j ≡ (if k == j then none else get m j)
  get-without [] k j = ground arith
  get-without ((i, v) ∷ m) k j =
      ground (arith, get-without m k j, e.same_iff i k, e.same_iff i j, e.same_iff k j)

  pub get-put :
      (m : List (K × V)) (k j : K) (v : V)
      → get (put m k v) j ≡ (if k == j then some v else get m j)
  get-put m k j v = ground (arith, get-without m k j)
