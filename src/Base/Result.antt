-- ===== src/Base/Result.antt =====
-- Go's `error` results: a value or an error, and a state-changing call that may return an error,
-- where the state comes back with the error too, since what was written stays written.
use mathlib.Core.Path.{◌≡◌, refl}
use mathlib.Core.Logic.{◌⊎◌, inl, inr}
use mathlib.Core.Bool.{Bool, true, false}
use mathlib.Core.Option.{Option, none, some}
use pixie_block.Base.Tests.{⊤}

pub data Result {ℓ κ} (E : Type κ) (A : Type ℓ) : Type (ℓ ⊔ κ) where
  ok : A → Result E A
  err : E → Result E A

-- `if !test { return e }`
abbrev pub guard {ν} : {E : Type ν} → Bool → E → Result E ⊤
guard false failure = err failure
guard true failure = ok tt

-- `x, err := run(); if err != nil { return err }; next(x)`
infixl 5 ◌>>=◌ ◌>>◌
abbrev pub ◌>>=◌ {ℓ κ ν} :
    {E : Type ν} {A : Type ℓ} {B : Type κ} → Result E A → (A → Result E B) → Result E B
err failure >>= next = err failure
ok x >>= next = next x

abbrev pub ◌>>◌ {ℓ κ ν} :
    {E : Type ν} {A : Type ℓ} {B : Type κ} → Result E A → Result E B → Result E B
run >> next = run >>= (λ _. next)

-- `v, ok := m[k]; if !ok { return e }`
abbrev pub or_fail {ℓ ν} : {E : Type ν} {A : Type ℓ} → Option A → E → Result E A
or_fail none e = err e
or_fail (some a) e = ok a

-- Inversion of a bind that succeeds.
pub >>=-eq-ok {ℓ κ ν} :
    {E : Type ν} {A : Type ℓ} {B : Type κ} (run : Result E A) (next : A → Result E B) {y : B}
    → (run >>= next) ≡ ok y
    → (x : A) × (run ≡ ok x) × (next x ≡ ok y)
>>=-eq-ok (err failure) next h = cc
>>=-eq-ok (ok x) next h = (x, refl, h)

-- `fmt.Errorf("…: %w", err)`
abbrev pub wrap_err {ℓ ν} : {E : Type ν} {A : Type ℓ} → (E → E) → Result E A → Result E A
wrap_err f (ok a) = ok a
wrap_err f (err e) = err (f e)

pub Result-cases {ℓ ν} :
    {E : Type ν} {A : Type ℓ} (r : Result E A) → ((a : A) × (r ≡ ok a)) ⊎ ((e : E) × (r ≡ err e))
Result-cases (ok a) = inl (a, refl)
Result-cases (err e) = inr (e, refl)
