-- ===== src/Balance/Edges.antt =====
-- What the monitor of crates/solvela-client/src/balance.rs promises: the shared balance is the last
-- one that was read, and the callback hears of each fall below the threshold once.
use mathlib.Core.List.{foldl}
use solvela_client.Base.{
  ℕ, Bool, true, false, not, ◌&&◌, List, [], ◌∷◌, ◌++◌, ◌≡◌, refl, map, length, arith,
  if◌then◌else◌, Bool-cases, inl, inr, ◌∙◌, ap, keep,
}
use solvela_client.Base.Outcome.{Result, ok, err, done}
use solvela_client.Wallet.{Bytes}
use solvela_client.Net.{World}
use solvela_client.Platform.{Platform}
use solvela_client.Floats.{Floats}
use solvela_client.Balance.{BalanceError, BalanceMonitor, Watch, observe, watched_account, run}
use solvela_client.Balance.Polls.{answers, polls-answers, repeated}

-- The polls that succeeded.
abbrev pub readings {ℓ κ} : {E : Type ℓ} {A : Type κ} → List (Result E A) → List A
readings [] = []
readings (ok x ∷ rs) = x ∷ readings rs
readings (err e ∷ rs) = readings rs

abbrev pub zip {ℓ κ} : {A : Type ℓ} {B : Type κ} → List A → List B → List (A × B)
zip [] ys = []
zip (x ∷ xs) [] = []
zip (x ∷ xs) (y ∷ ys) = (x, y) ∷ zip xs ys

module _ (F : Floats) (m : BalanceMonitor F) where
  abbrev pub is_low : F.F64 → Bool
  is_low x = F.lt x m.low_balance_threshold

  -- The readings that are low while the one before is not; before the first stands `before`.
  abbrev pub falls : Bool → List F.F64 → List F.F64
  falls before xs =
      map (λ r. r.1) (keep (λ r. is_low r.1 && not r.0) (zip (before ∷ map is_low xs) xs))

  -- The last reading, in atomic units.
  abbrev pub last_atomic : ℕ → List F.F64 → ℕ
  last_atomic before xs = foldl (λ _ x. F.to_u64 (F.mul x F.million)) before xs

  -- What the monitor has done after the results `rs`.
  pub record Reports (s : Watch F) (rs : List (Result BalanceError F.F64)) (t : Watch F)
      : Type 0 where
    pub balance : t.balance_state ≡ last_atomic s.balance_state (readings rs)
    pub calls :
        t.calls ≡ s.calls ++ (if m.on_low_balance then falls s.was_low (readings rs) else [])

  append_nil : (xs : List F.F64) → xs ≡ xs ++ []
  append_nil [] = refl
  append_nil (x ∷ xs) = ap (λ ys. x ∷ ys) (append_nil xs)

  append_assoc : (xs ys zs : List F.F64) → (xs ++ ys) ++ zs ≡ xs ++ (ys ++ zs)
  append_assoc [] ys zs = refl
  append_assoc (x ∷ xs) ys zs = ap (λ l. x ∷ l) (append_assoc xs ys zs)

  falls-cons :
      (before : Bool) (x : F.F64) (xs : List F.F64)
      → falls before (x ∷ xs)
        ≡ (if is_low x && not before then x ∷ falls (is_low x) xs else falls (is_low x) xs)
  falls-cons before x xs = elim (Bool-cases (is_low x && not before)) [
    | inl fell ↦ rw fell refl
    | inr stayed ↦ rw stayed refl
  ]

  calls_step :
      (fell on : Bool) (cs ys : List F.F64) (x : F.F64)
      → (if fell && on then cs ++ (x ∷ []) else cs) ++ (if on then ys else [])
        ≡ cs ++ (if on then (if fell then x ∷ ys else ys) else [])
  calls_step true true cs ys x = append_assoc cs (x ∷ []) ys
  calls_step true false cs ys x = refl
  calls_step false true cs ys x = refl
  calls_step false false cs ys x = refl

  observe-Reports :
      (rs : List (Result BalanceError F.F64)) (s : Watch F)
      → Reports s rs (foldl (observe F m) s rs)
  unfolding observe
  observe-Reports [] s = record { balance = refl; calls = ground (arith, append_nil s.calls) }
  observe-Reports (err e ∷ rs) s =
      let rest = observe-Reports rs s in record { balance = rest.balance; calls = rest.calls }
  observe-Reports (ok x ∷ rs) s =
      let rest = observe-Reports rs (observe F m s (ok x)) in
      record {
        balance = rest.balance;
        calls =
            rest.calls
            ∙ (rw (falls-cons s.was_low x (readings rs)) (
                calls_step (is_low x && not s.was_low) m.on_low_balance s.calls
                  (falls (is_low x) (readings rs)) x));
      }

  -- The monitor as a function of what the servers answer. Once its address and the mint are read,
  -- after any number of ticks with any times between them: it has made one balance call for each
  -- tick and has signed nothing; the shared balance is the last one that a call has read, in atomic
  -- units, or the first one if none has; and the callback, if one is set, has been called with the
  -- readings that are low while the reading before is not, in their order.
  pub run-Reports :
      (p : Platform) (ata : Bytes) (waits : List ℕ) (before : ℕ) (w : World)
      → let start : Watch F = record { balance_state = before; was_low = false; calls = [] } in
        let after = run F p m waits before w in
        let n = length waits in
        watched_account F p m ≡ done ata
        → Reports start (answers F p m ata n w.sent) after.0
          × (after.1.sent ≡ repeated F p m ata n w.sent)
          × (after.1.signed ≡ w.signed)
  unfolding run
  run-Reports p ata waits before w found =
      let start : Watch F = record { balance_state = before; was_low = false; calls = [] } in
      let (same, sent, signed) = polls-answers F p m ata waits start w in
      rw (run, found, same, sent, signed)
        (observe-Reports (answers F p m ata (length waits) w.sent) start, refl, refl)
