-- ===== src/Floats.antt =====
-- The floating-point numbers of the language, by the operations on `f64` that the program uses, and
-- the number that it reads from the answer to a query of a balance.
use solvela_client.Base.{ℕ, ◌≤◌, String, Bool, Option, ◌≡◌}
use solvela_client.Base.Outcome.{Result}
use solvela_client.Text.Digits.{u64_max}

-- The parts of a JSON-RPC answer that are read: whether it has an `error`, and
-- `result.value.uiAmount` where it is a number.
pub record BalanceReply (F64 : Type 0) : Type 0 where
  pub has_error : Bool
  pub ui_amount : Option F64

pub record Floats : Type 1 where
  pub F64 : Type 0
  -- the literals 0.0, 0.01, 0.10 and 1_000_000.0
  pub zero : F64
  pub hundredth : F64
  pub tenth : F64
  pub million : F64
  pub mul : F64 → F64 → F64
  pub div : F64 → F64 → F64
  pub round : F64 → F64
  pub lt : F64 → F64 → Bool
  -- `as f64`, and `as u64`, which cuts off the fraction and stays within the range of `u64`
  pub of_u64 : ℕ → F64
  pub to_u64 : F64 → ℕ
  -- `{:.6}`
  pub fixed6 : F64 → String
  pub balance_reply : String → Result String (BalanceReply F64)

-- What the language says of the operations, as far as the program relies on it.
pub record IsLawful (F : Floats) : Type 0 where
  pub to_u64-le : (x : F.F64) → F.to_u64 x ≤ u64_max
  pub zero_mul : (x : F.F64) → F.to_u64 (F.mul F.zero x) ≡ 0
