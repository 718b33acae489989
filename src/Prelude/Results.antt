-- ===== src/Prelude/Results.antt =====
-- What a Go call does that can fail: it returns, it returns an error, or it panics.
use mathlib.Core.Path.{◌≡◌, refl}

pub data Outcome {ℓ κ} (E : Type κ) (A : Type ℓ) : Type (ℓ ⊔ κ) where
  ok : A → Outcome E A
  err : E → Outcome E A
  panic : Outcome E A

infixl 5 ◌>>=◌
unfoldable pub ◌>>=◌ {ℓ κ μ} :
    {E : Type κ} {A : Type ℓ} {B : Type μ} → Outcome E A → (A → Outcome E B) → Outcome E B
ok a >>= f = f a
err e >>= f = err e
panic >>= f = panic

-- `if err != nil { return fmt.Errorf(…, err) }`: the error is wrapped, anything else passes.
abbrev pub wrap_err {ℓ κ} : {E : Type κ} {A : Type ℓ} → (E → E) → Outcome E A → Outcome E A
wrap_err f (ok a) = ok a
wrap_err f (err e) = err (f e)
wrap_err f panic = panic

-- Inversion of a successful bind.
pub >>=-eq-ok {ℓ κ μ} :
    {E : Type κ} {A : Type ℓ} {B : Type μ} (m : Outcome E A) (f : A → Outcome E B) {b : B}
    → (m >>= f) ≡ ok b
    → (a : A) × (m ≡ ok a) × (f a ≡ ok b)
unfolding ◌>>=◌
>>=-eq-ok (ok a) f h = (a, refl, h)
>>=-eq-ok (err e) f h = cc
>>=-eq-ok panic f h = cc

pub wrap_err-eq-ok {ℓ κ} :
    {E : Type κ} {A : Type ℓ} (g : E → E) (m : Outcome E A) {a : A} → wrap_err g m ≡ ok a → m ≡ ok a
wrap_err-eq-ok g (ok a) h = h
wrap_err-eq-ok g (err e) h = cc
wrap_err-eq-ok g panic h = cc

-- A call that does not panic, and gives what has a property where it returns no error.
abbrev pub Keeps {ℓ κ} : {E : Type κ} {A : Type ℓ} → (A → Type 0) → Outcome E A → Type 0
Keeps P (ok a) = P a
Keeps P (err e) = Unit
Keeps P panic = ⊥

-- A call that returns without an error.
abbrev pub IsOk {ℓ κ} : {E : Type κ} {A : Type ℓ} → Outcome E A → Type 0
IsOk (ok a) = Unit
IsOk (err e) = ⊥
IsOk panic = ⊥

pub ok_of {ℓ κ} : {E : Type κ} {A : Type ℓ} (m : Outcome E A) → IsOk m → (a : A) × (m ≡ ok a)
ok_of (ok a) h = (a, refl)
ok_of (err e) h = absurd h
ok_of panic h = absurd h
