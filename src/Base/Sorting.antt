-- ===== src/Base/Sorting.antt =====
-- `slice::sort_by`, which is stable, as an insertion sort.
use solvela_client.Base.Logic.{if◌then◌else◌, Bool-cases}
use solvela_client.Base.Lists.{All, keep}
use mathlib.Core.Path.{◌≡◌, refl}
use mathlib.Core.Logic.{◌⊎◌, inl, inr}
use mathlib.Core.Bool.{Bool, true, false}
use mathlib.Core.List.{List, [], ◌∷◌}
use native.Mathlib.Omega.{arith}

module _ {ℓ} {A : Type ℓ} (le : A → A → Bool) where
  -- An element goes before the first one that it does not exceed.
  unfoldable pub insert_by : A → List A → List A
  insert_by x [] = x ∷ []
  insert_by x (y ∷ ys) = let rest = insert_by x ys in if le x y then x ∷ y ∷ ys else y ∷ rest

  unfoldable pub sort_by : List A → List A
  unfolding insert_by
  sort_by [] = []
  sort_by (x ∷ xs) = insert_by x (sort_by xs)

  abbrev pub IsSorted : List A → Type ℓ
  IsSorted [] = Unit
  IsSorted (x ∷ xs) = All (λ y. le x y ≡ true) xs × IsSorted xs

  module _ (total : (x y : A) → (le x y ≡ true) ⊎ (le y x ≡ true))
      (trans : (x y z : A) → le x y ≡ true → le y z ≡ true → le x z ≡ true) where
    All-le :
        (x y : A) (ys : List A)
        → le x y ≡ true
        → All (λ z. le y z ≡ true) ys
        → All (λ z. le x z ≡ true) ys
    All-le x y [] h _ = tt
    All-le x y (z ∷ zs) h (k, rest) = (trans x y z h k, All-le x y zs h rest)

    All-insert_by :
        (x y : A) (ys : List A)
        → le y x ≡ true
        → All (λ z. le y z ≡ true) ys
        → All (λ z. le y z ≡ true) (insert_by x ys)
    unfolding insert_by
    All-insert_by x y [] h _ = (h, tt)
    All-insert_by x y (z ∷ zs) h (k, rest) = elim (Bool-cases (le x z)) [
      | inl before ↦ rw before (h, (k, rest))
      | inr after ↦ rw after (k, All-insert_by x y zs h rest)
    ]

    insert_by-IsSorted : (x : A) (ys : List A) → IsSorted ys → IsSorted (insert_by x ys)
    unfolding insert_by
    insert_by-IsSorted x [] _ = (tt, tt)
    insert_by-IsSorted x (y ∷ ys) (low, sorted) = elim (Bool-cases (le x y)) [
      | inl before ↦ rw before ((before, All-le x y ys before low), (low, sorted))
      | inr after ↦
          rw after (All-insert_by x y ys (below after) low, insert_by-IsSorted x ys sorted)
    ]
      where
        below : le x y ≡ false → le y x ≡ true
        below after = elim (total x y) [ inl h ↦ absurd (cc (after, h)) | inr h ↦ h ]

    pub sort_by-IsSorted : (xs : List A) → IsSorted (sort_by xs)
    unfolding sort_by
    sort_by-IsSorted [] = tt
    sort_by-IsSorted (x ∷ xs) = insert_by-IsSorted x (sort_by xs) (sort_by-IsSorted xs)

  -- Elements that do not exceed each other keep their order.
  module _ (test : A → Bool)
      (alike : (x y : A) → test x ≡ true → test y ≡ true → le x y ≡ true) where
    keep-insert_by : (x : A) (ys : List A) → keep test (insert_by x ys) ≡ keep test (x ∷ ys)
    unfolding insert_by
    keep-insert_by x [] = refl
    keep-insert_by x (y ∷ ys) = ground (arith, keep-insert_by x ys, alike x y)

    pub keep-sort_by : (xs : List A) → keep test (sort_by xs) ≡ keep test xs
    unfolding sort_by
    keep-sort_by [] = refl
    keep-sort_by (x ∷ xs) = ground (arith, keep-insert_by x (sort_by xs), keep-sort_by xs)
