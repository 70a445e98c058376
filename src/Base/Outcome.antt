-- ===== src/Base/Outcome.antt =====
-- Fallible code. `Result` is what the libraries return; the program's own code returns an
-- `Outcome`, which may also be a panic (`expect`).
use mathlib.Core.Path.{◌≡◌, refl}
use mathlib.Core.Logic.{◌⊎◌, inl, inr}
use mathlib.Core.Option.{Option, none, some}

pub data Result {ℓ κ} (E : Type ℓ) (A : Type κ) : Type (ℓ ⊔ κ) where
  ok : A → Result E A
  err : E → Result E A

pub data Outcome {ℓ κ} (E : Type ℓ) (A : Type κ) : Type (ℓ ⊔ κ) where
  done : A → Outcome E A
  fail : E → Outcome E A
  panic : Outcome E A

-- `map_err(f)?`
abbrev pub try {ℓ κ μ} : {E : Type ℓ} {F : Type κ} {A : Type μ} → (E → F) → Result E A → Outcome F A
try f (ok a) = done a
try f (err e) = fail (f e)

-- `expect`
abbrev pub expect {ℓ κ μ} : {E : Type ℓ} {F : Type κ} {A : Type μ} → Result E A → Outcome F A
expect (ok a) = done a
expect (err e) = panic

-- `ok_or(e)?`
abbrev pub ok_or {ℓ κ} : {E : Type ℓ} {A : Type κ} → E → Option A → Outcome E A
ok_or e none = fail e
ok_or e (some a) = done a

abbrev pub map_fail {ℓ κ μ} :
    {E : Type ℓ} {F : Type κ} {A : Type μ} → (E → F) → Outcome E A → Outcome F A
map_fail f (done a) = done a
map_fail f (fail e) = fail (f e)
map_fail f panic = panic

infixl 5 ◌>>=◌
abbrev pub ◌>>=◌ {ℓ κ μ} :
    {E : Type ℓ} {A : Type κ} {B : Type μ} → Outcome E A → (A → Outcome E B) → Outcome E B
done a >>= f = f a
fail e >>= f = fail e
panic >>= f = panic

-- What a success says of the steps before it.
pub bind-done {ℓ κ μ} :
    {E : Type ℓ} {A : Type κ} {B : Type μ} (m : Outcome E A) (f : A → Outcome E B) {b : B}
    → (m >>= f) ≡ done b
    → (a : A) × (m ≡ done a) × (f a ≡ done b)
bind-done (done a) f h = (a, refl, h)
bind-done (fail e) f h = cc
bind-done panic f h = cc

pub try-done {ℓ κ μ} :
    {E : Type ℓ} {F : Type κ} {A : Type μ} (f : E → F) (r : Result E A) {a : A}
    → try f r ≡ done a
    → r ≡ ok a
try-done f (ok a) h = cc
try-done f (err e) h = cc

pub expect-done {ℓ κ μ} :
    {E : Type ℓ} {F : Type κ} {A : Type μ} (r : Result E A) {a : A}
    → ◌≡◌ {A = Outcome F A} (expect r) (done a)
    → r ≡ ok a
expect-done (ok a) h = cc
expect-done (err e) h = cc

pub done-injective {ℓ κ} :
    {E : Type ℓ} {A : Type κ} (a b : A) → let o : Outcome E A = done a in o ≡ done b → a ≡ b
done-injective a b h = cc h

pub Result-cases {ℓ κ} :
    {E : Type ℓ} {A : Type κ} (r : Result E A) → ((a : A) × (r ≡ ok a)) ⊎ ((e : E) × (r ≡ err e))
Result-cases (ok a) = inl (a, refl)
Result-cases (err e) = inr (e, refl)

pub Outcome-cases {ℓ κ} :
    {E : Type ℓ} {A : Type κ} (o : Outcome E A)
    → ((a : A) × (o ≡ done a)) ⊎ (((e : E) × (o ≡ fail e)) ⊎ (o ≡ panic))
Outcome-cases (done a) = inl (a, refl)
Outcome-cases (fail e) = inr (inl (e, refl))
Outcome-cases panic = inr (inr refl)
