-- ===== src/Tests/Numbers.antt =====
-- Numbers with six decimals in place of the floating-point numbers.
use solvela_client.Base.{ℕ, ◌+◌, ◌*◌, ◌/◌, min, ltb, false, some, arith}
use solvela_client.Base.Outcome.{ok}
use solvela_client.Text.Digits.{u64_max, to_decimal}
use solvela_client.Floats.{Floats, IsLawful}

-- A number is held as its millionths. The answer to a query of a balance is 0.05.
abbrev pub numbers : Floats
numbers = record {
  F64 = ℕ;
  zero = 0;
  hundredth = 10_000;
  tenth = 100_000;
  million = 1_000_000_000_000;
  mul = λ a b. a * b / 1_000_000;
  div = λ a b. a * 1_000_000 / b;
  round = λ a. (a + 500_000) / 1_000_000 * 1_000_000;
  lt = ltb;
  of_u64 = λ n. n * 1_000_000;
  to_u64 = λ a. min (a / 1_000_000) u64_max;
  fixed6 = to_decimal;
  balance_reply = λ s. ok (record { has_error = false; ui_amount = some 50_000 });
}

numbers-IsLawful : IsLawful numbers
numbers-IsLawful = record { to_u64-le = λ a. omega arith; zero_mul = λ a. omega arith }
