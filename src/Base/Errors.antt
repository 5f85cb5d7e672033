-- ===== src/Base/Errors.antt =====
-- Go's `(T, error)` results and `error` values, and internal/storage/errors.go.
use Prim.Native.String.{String}
use mathlib.Core.Path.{◌≡◌, refl}
use mathlib.Core.Logic.{◌⊎◌, inl, inr}
use mathlib.Core.List.{List}
use mathlib.Core.Bool.{Bool, true, false}

-- `not_found` is the sentinel `storage.ErrNotFound`; `errorf` holds a format and its arguments, and
-- `wrapped` is `fmt.Errorf("…: %w", err)`.
pub data Error : Type 0 where
  not_found : Error
  message : String → Error
  errorf : String → List String → Error
  wrapped : String → Error → Error

pub data Result {ℓ} (A : Type ℓ) : Type ℓ where
  err : Error → Result A
  ok : A → Result A

infixl 5 ◌>>=◌ ◌>>◌
abbrev pub ◌>>=◌ {ℓ κ} : {A : Type ℓ} {B : Type κ} → Result A → (A → Result B) → Result B
err e >>= f = err e
ok a >>= f = f a

abbrev pub ◌>>◌ {ℓ} : {B : Type ℓ} → Result (Unit {0}) → Result B → Result B
m >> k = m >>= λ _. k

-- `err == storage.ErrNotFound`: a wrapped sentinel is another value.
abbrev pub is_not_found : Error → Bool
is_not_found not_found = true
is_not_found _ = false

-- What a caller that ignores an error is left with.
abbrev pub result {ℓ} : {A : Type ℓ} → A → Result A → A
result a (ok b) = b
result a (err e) = a

-- `if !test { return e }`
abbrev pub guard : Bool → Error → Result (Unit {0})
guard true e = ok tt
guard false e = err e

pub Result-cases {ℓ} :
    {A : Type ℓ} (r : Result A) → ((a : A) × (r ≡ ok a)) ⊎ ((e : Error) × (r ≡ err e))
Result-cases (err e) = inr (e, refl)
Result-cases (ok a) = inl (a, refl)
