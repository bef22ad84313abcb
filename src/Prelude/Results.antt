-- ===== src/Prelude/Results.antt =====
-- Rust's `Result<T, E>` with `?`, and the guards that the early returns are.
use mathlib.Core.Bool.{Bool, true, false}
use mathlib.Core.Option.{Option, none, some}
use mathlib.Core.Logic.{◌⊎◌, inl, inr}
use mathlib.Core.Path.{◌≡◌, refl}

pub data Result {ℓ κ} (E : Type ℓ) (A : Type κ) : Type (ℓ ⊔ κ) where
  err : (cause : E) → Result E A
  ok : (value : A) → Result E A

-- `?`: the first error is the answer.
infixl 5 ◌>>=◌
abbrev pub ◌>>=◌ {ℓ κ μ} :
    {E : Type ℓ} {A : Type κ} {B : Type μ} (first : Result E A) (rest : A → Result E B) → Result E B
err cause >>= _ = err cause
ok value >>= rest = rest value

-- The same when the value is `()`.
infixl 5 ◌>>◌
abbrev pub ◌>>◌ {ℓ κ μ} :
    {E : Type ℓ} {A : Type κ} {B : Type μ} (first : Result E A) (rest : Result E B) → Result E B
err cause >> _ = err cause
ok _ >> rest = rest

-- `if !test { return Err(cause) }`
abbrev pub guard {ℓ} : {E : Type ℓ} (passed : Bool) (cause : E) → Result E (Unit {0})
guard false cause = err cause
guard true _ = ok tt

-- The same on a decision.
abbrev pub ensure {ℓ κ} : {E : Type ℓ} {P : Type κ} → Dec P → E → Result E (Unit {0})
ensure (yes p) e = ok tt
ensure (no p) e = err e

pub ensure-yes {ℓ κ} : {E : Type ℓ} {P : Type κ} (d : Dec P) (e : E) → P → ensure d e ≡ ok tt
ensure-yes (yes _) e p = refl
ensure-yes (no n) e p = absurd (n p)

pub ensure-no {ℓ κ} : {E : Type ℓ} {P : Type κ} (d : Dec P) (e : E) → ¬ P → ensure d e ≡ err e
ensure-no (yes p) e n = absurd (n p)
ensure-no (no _) e n = refl

-- `option.ok_or(e)`
abbrev pub ok_or {ℓ κ} : {E : Type ℓ} {A : Type κ} → Option A → E → Result E A
ok_or none e = err e
ok_or (some a) e = ok a

-- `result.map_err(f)`
abbrev pub map_err {ℓ κ μ} :
    {E : Type ℓ} {F : Type κ} {A : Type μ} → (E → F) → Result E A → Result F A
map_err f (ok a) = ok a
map_err f (err e) = err (f e)

pub Result-cases {ℓ κ} :
    {E : Type ℓ} {A : Type κ} (r : Result E A) → ((a : A) × (r ≡ ok a)) ⊎ ((e : E) × (r ≡ err e))
Result-cases (ok a) = inl (a, refl)
Result-cases (err e) = inr (e, refl)
