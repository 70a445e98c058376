-- ===== src/Base/Exec.antt =====
-- Code that acts on a state and may fail. What was written before a failure stays written.
use mathlib.Core.Path.{◌≡◌, refl}
use solvela_client.Base.Outcome.{Outcome, done, fail, panic, map_fail}
use solvela_client.Base.{Bool, true, false, if◌then◌else◌}

abbrev pub Exec {ℓ κ μ} : Type ℓ → Type κ → Type μ → Type (ℓ ⊔ κ ⊔ μ)
Exec S E A = S → Outcome E A × S

module _ {ℓ κ μ} {S : Type ℓ} {E : Type κ} {A : Type μ} where
  abbrev pub pure : A → Exec S E A
  pure a s = (done a, s)

  abbrev pub raise : E → Exec S E A
  raise e s = (fail e, s)

  abbrev pub lift : Outcome E A → Exec S E A
  lift o s = (o, s)

module _ {ℓ κ μ ν} {S : Type ℓ} {E : Type κ} {A : Type μ} {B : Type ν} where
  abbrev pub continue : Outcome E A → (A → Exec S E B) → Exec S E B
  continue (done a) f s = f a s
  continue (fail e) f s = (fail e, s)
  continue panic f s = (panic, s)

  infixl 5 ◌>>=◌
  abbrev pub ◌>>=◌ : Exec S E A → (A → Exec S E B) → Exec S E B
  ◌>>=◌ m f s = continue (m s).0 f (m s).1

-- `map_err(f)?` on an action.
abbrev pub map_fail_exec {ℓ κ μ ν} :
    {S : Type ℓ} {E : Type κ} {F : Type μ} {A : Type ν} → (E → F) → Exec S E A → Exec S F A
map_fail_exec f m s = (map_fail f (m s).0, (m s).1)

module _ {ℓ κ μ ν ρ} {S : Type ℓ} {E : Type κ} {A : Type μ} {B : Type ν} where
  -- What holds after a chain, by the three ways in which its first step ends.
  pub bind-post :
      (Q : Outcome E B → S → Type ρ) (m : Exec S E A) (f : A → Exec S E B) (s : S)
      → ((a : A) → (m s).0 ≡ done a → Q (f a (m s).1).0 (f a (m s).1).1)
      → ((e : E) → (m s).0 ≡ fail e → Q (fail e) (m s).1)
      → ((m s).0 ≡ panic → Q panic (m s).1)
      → Q ((m >>= f) s).0 ((m >>= f) s).1
  bind-post Q m f s on_done on_fail on_panic = go (m s).0 (m s).1 on_done on_fail on_panic
    where
      go :
          (o : Outcome E A) (t : S)
          → ((a : A) → o ≡ done a → Q (f a t).0 (f a t).1)
          → ((e : E) → o ≡ fail e → Q (fail e) t)
          → (o ≡ panic → Q panic t)
          → Q (continue o f t).0 (continue o f t).1
      go (done a) t d e p = d a refl
      go (fail x) t d e p = e x refl
      go panic t d e p = p refl

-- An action that keeps a predicate of the state, however it ends.
abbrev pub Keeps {ℓ κ μ ρ} :
    {S : Type ℓ} {E : Type κ} {A : Type μ} → (S → Type ρ) → Exec S E A → Type (ℓ ⊔ ρ)
Keeps P m = (s : _) → P s → P (m s).1

module _ {ℓ κ μ ν ρ} {S : Type ℓ} {E : Type κ} {A : Type μ} {B : Type ν} (P : S → Type ρ) where
  pub Keeps-bind :
      (m : Exec S E A) (f : A → Exec S E B)
      → Keeps P m
      → ((a : A) → Keeps P (f a))
      → Keeps P (m >>= f)
  Keeps-bind m f km kf s h =
      bind-post (λ _ t. P t) m f s (λ a _. kf a (m s).1 (km s h)) (λ _ _. km s h) (λ _. km s h)

-- One of two actions, by a test.
pub if-post {ℓ κ μ ρ} :
    {S : Type ℓ} {E : Type κ} {A : Type μ} (Q : Outcome E A → S → Type ρ) (b : Bool)
    (m n : Exec S E A) (s : S)
    → (b ≡ true → Q (m s).0 (m s).1)
    → (b ≡ false → Q (n s).0 (n s).1)
    → Q ((if b then m else n) s).0 ((if b then m else n) s).1
if-post Q true m n s t f = t refl
if-post Q false m n s t f = f refl
