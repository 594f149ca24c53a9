-- ===== src/Prelude/Results.antt =====
-- Go's `(A, error)` and `error` results.
use mathlib.Core.Path.{◌≡◌, refl}

pub data Result {ℓ κ} (Fault : Type ℓ) (A : Type κ) : Type (ℓ ⊔ κ) where
  err : Fault → Result Fault A
  ok : A → Result Fault A

-- `if err != nil { return …, err }` between two steps.
infixl 5 ◌>>=◌
abbrev pub ◌>>=◌ {ℓ κ μ} :
    {Fault : Type ℓ} {A : Type κ} {B : Type μ}
    → Result Fault A
    → (A → Result Fault B)
    → Result Fault B
err fault >>= rest = err fault
ok value >>= rest = rest value

-- Where two steps return no error, neither does the first.
pub bind-ok {ℓ κ μ} :
    {Fault : Type ℓ} {A : Type κ} {B : Type μ} (x : Result Fault A) (f : A → Result Fault B) (b : B)
    → (x >>= f) ≡ ok b
    → (a : A) × (x ≡ ok a) × (f a ≡ ok b)
bind-ok (err e) f b h = absurd (cc)
bind-ok (ok a) f b h = (a, refl, h)
