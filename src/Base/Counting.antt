-- ===== src/Base/Counting.antt =====
-- The loop `*counts.entry(x).or_insert(0) += 1; if *count >= threshold { … }`, which stops at the
-- first value that has been met `threshold` times, and what it decides.
use solvela_client.Base.Logic.{if◌then◌else◌, leb, unwrap_or, Bool-cases}
use solvela_client.Base.Equality.{Eq, ◌==◌}
use solvela_client.Base.Lists.{count}
use solvela_client.Base.Dict.{Dict, lookup, insert, lookup-insert, lookup-nil}
use Prim.Native.Nat.{ℕ, ◌+◌, ◌≤◌, ◌<◌}
use mathlib.Core.Path.{◌≡◌}
use mathlib.Core.Logic.{◌↔◌, inl, inr}
use mathlib.Core.Bool.{Bool, true, false}
use mathlib.Core.List.{List, [], ◌∷◌}
use native.Mathlib.Omega.{arith}

module _ {ℓ} {K : Type ℓ} ⦃e : Eq K⦄ where
  unfoldable pub reaches_from : ℕ → Dict K ℕ → List K → Bool
  reaches_from threshold counts [] = false
  reaches_from threshold counts (x ∷ xs) =
      let n = unwrap_or (lookup x counts) 0 + 1 in
      let rest = reaches_from threshold (insert x n counts) xs in
      if leb threshold n then true else rest

  unfoldable pub reaches : ℕ → List K → Bool
  unfolding reaches_from lookup insert
  reaches threshold xs = reaches_from threshold [] xs

  abbrev counted : K → Dict K ℕ → ℕ
  counted k counts = unwrap_or (lookup k counts) 0

  counted-insert :
      (j k : K) (n : ℕ) (counts : Dict K ℕ)
      → counted k (insert j n counts) ≡ (if j == k then n else counted k counts)
  counted-insert j k n counts = ground (arith, lookup-insert j k n counts)

  reaches_from_sound :
      (t : ℕ) (counts : Dict K ℕ) (xs : List K)
      → reaches_from t counts xs ≡ true
      → (k : K) × (t ≤ counted k counts + count k xs)
  unfolding reaches_from
  reaches_from_sound t counts [] h = absurd (ground arith)
  reaches_from_sound t counts (x ∷ xs) h = elim (Bool-cases (leb t (counted x counts + 1))) [
    | inl now ↦ (x, ground arith)
    | inr later ↦
        let (k, reached) =
          reaches_from_sound t (insert x (counted x counts + 1) counts) xs (ground arith) in
        (k, ground (arith, counted-insert x k (counted x counts + 1) counts))
  ]

  reaches_from_complete :
      (t : ℕ) (counts : Dict K ℕ) (xs : List K) (k : K)
      → counted k counts < t
      → t ≤ counted k counts + count k xs
      → reaches_from t counts xs ≡ true
  unfolding reaches_from
  reaches_from_complete t counts [] k below h = absurd (omega arith)
  reaches_from_complete t counts (x ∷ xs) k below h = ground (
    arith,
    counted-insert x k (counted x counts + 1) counts,
    reaches_from_complete t (insert x (counted x counts + 1) counts) xs k,
  )

  -- The loop answers `true` exactly if some value occurs `t` times.
  pub reaches_iff :
      (t : ℕ) (xs : List K) → 0 < t → (reaches t xs ≡ true) ↔ ((k : K) × (t ≤ count k xs))
  unfolding reaches
  reaches_iff t xs pos = (
    λ h. let (k, r) = reaches_from_sound t [] xs h in (k, ground (arith, lookup-nil {V = ℕ} k)),
    λ (k, r).
        reaches_from_complete t [] xs k (ground (arith, lookup-nil {V = ℕ} k))
          (ground (arith, lookup-nil {V = ℕ} k)),
  )
