-- ===== src/Base/Dict.antt =====
-- `std::collections::HashMap` as an association list. The program never observes the order of
-- its entries. Proofs go by the laws.
use mathlib.Core.Path.{◌≡◌, refl}
use mathlib.Core.Logic.{◌≢◌}
use mathlib.Core.Bool.{Bool}
use mathlib.Core.List.{List, [], ◌∷◌}
use mathlib.Core.Option.{Option, none, some}
use native.Mathlib.Omega.{arith}
use solvela_client.Base.Logic.{if◌then◌else◌}
use solvela_client.Base.Equality.{Eq, ◌==◌}

abbrev pub Dict {ℓ κ} : Type ℓ → Type κ → Type (ℓ ⊔ κ)
Dict K V = List (K × V)

-- `Option::filter`
abbrev pub keep_if {ℓ} : {V : Type ℓ} → (V → Bool) → Option V → Option V
keep_if p none = none
keep_if p (some v) = if p v then some v else none

module _ {ℓ κ} {K : Type ℓ} {V : Type κ} ⦃e : Eq K⦄ where
  unfoldable pub lookup : K → Dict K V → Option V
  lookup k [] = none
  lookup k ((j, v) ∷ d) = if j == k then some v else lookup k d

  unfoldable pub insert : K → V → Dict K V → Dict K V
  insert k v [] = (k, v) ∷ []
  insert k v ((j, w) ∷ d) = if j == k then (j, v) ∷ d else (j, w) ∷ insert k v d

  -- `retain`: the entries whose value passes the test.
  unfoldable pub retain : (V → Bool) → Dict K V → Dict K V
  retain p [] = []
  retain p ((j, v) ∷ d) = let rest = retain p d in if p v then (j, v) ∷ rest else rest

  pub lookup-nil : (k : K) → lookup k [] ≡ none
  unfolding lookup
  lookup-nil k = refl

  pub lookup-insert :
      (k j : K) (v : V) (d : Dict K V)
      → lookup j (insert k v d) ≡ (if k == j then some v else lookup j d)
  unfolding lookup insert
  lookup-insert k j v [] = refl
  lookup-insert k j v ((i, w) ∷ d) = ground (arith, lookup-insert k j v d)

  pub lookup-insert_self : (k : K) (v : V) (d : Dict K V) → lookup k (insert k v d) ≡ some v
  lookup-insert_self k v d = ground (arith, lookup-insert k k v d)

  pub lookup-insert_ne :
      (k j : K) (v : V) (d : Dict K V) → k ≢ j → lookup j (insert k v d) ≡ lookup j d
  lookup-insert_ne k j v d h = ground (arith, lookup-insert k j v d)

  -- A map has one entry for each key.
  abbrev pub NodupKeys : Dict K V → Type κ
  NodupKeys [] = Unit
  NodupKeys ((k, _) ∷ d) = (lookup k d ≡ none) × NodupKeys d

  pub insert-NodupKeys : (k : K) (v : V) (d : Dict K V) → NodupKeys d → NodupKeys (insert k v d)
  unfolding insert
  insert-NodupKeys k v [] _ = (lookup-nil k, tt)
  insert-NodupKeys k v ((j, w) ∷ d) (fresh, u) =
      ground (arith, insert-NodupKeys k v d u, lookup-insert k j v d)

  pub lookup-retain :
      (p : V → Bool) (k : K) (d : Dict K V)
      → NodupKeys d
      → lookup k (retain p d) ≡ keep_if p (lookup k d)
  unfolding lookup retain
  lookup-retain p k [] _ = refl
  lookup-retain p k ((j, v) ∷ d) (fresh, u) = ground (arith, lookup-retain p k d u, fresh)

  pub retain-NodupKeys : (p : V → Bool) (d : Dict K V) → NodupKeys d → NodupKeys (retain p d)
  unfolding retain
  retain-NodupKeys p [] _ = tt
  retain-NodupKeys p ((j, v) ∷ d) (fresh, u) =
      ground (arith, retain-NodupKeys p d u, lookup-retain p j d u)
