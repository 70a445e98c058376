-- ===== src/Text/Digits.antt =====
-- `str::parse::<u64>`, and integers printed in decimal (`{}`) and as sixteen hexadecimal digits
-- (`{:016x}`).
use solvela_client.Base.{
  ℕ, zero, suc, ◌+◌, ◌-◌, ◌*◌, ◌/◌, ◌%◌, ◌^◌, ◌≤◌, ◌<◌, min, Char, code, String, ◌<>◌, Bool, ◌&&◌,
  Option, none, some, arith, ◌≡◌, refl, leb, ltb, ◌==◌, nat_eq, string_eq, if◌then◌else◌,
}
use solvela_client.Base.Outcome.{Result, ok, err}
use solvela_client.Text.{single}

abbrev pub u64_limit : ℕ
u64_limit = 2 ^ 64

-- `u64::MAX`
abbrev pub u64_max : ℕ
u64_max = 18446744073709551615

-- `u64::saturating_add`
abbrev pub saturating_add : ℕ → ℕ → ℕ
saturating_add a b = min (a + b) u64_max

pub data ParseIntError : Type 0 where
  empty invalid_digit pos_overflow : ParseIntError

-- `Display` of `ParseIntError`
unfoldable pub display_parse_int_error : ParseIntError → String
display_parse_int_error empty = "cannot parse integer from empty string"
display_parse_int_error invalid_digit = "invalid digit found in string"
display_parse_int_error pos_overflow = "number too large to fit in target type"

abbrev pub is_digit : Char → Bool
is_digit c = leb 48 (code c) && leb (code c) 57

-- The loop over the digits: `checked_mul`, `to_digit`, `checked_add`.
unfoldable pub digits_from : ℕ → String → Result ParseIntError ℕ
digits_from acc String.[] = ok acc
digits_from acc (String.◌∷◌ c s) =
    let next = acc * 10 + (code c - 48) in
    let rest = digits_from next s in
    if is_digit c
    then (if ltb next u64_limit then rest else err pos_overflow)
    else err invalid_digit

-- One leading `+` is skipped; a sign alone is no number.
unfoldable pub parse_u64 : String → Result ParseIntError ℕ
unfolding digits_from nat_eq
parse_u64 String.[] = err empty
parse_u64 (String.◌∷◌ c String.[]) = digits_from 0 (single c)
parse_u64 (String.◌∷◌ c (String.◌∷◌ d s)) =
    if code c == b'+'
    then digits_from 0 (String.◌∷◌ d s)
    else digits_from 0 (String.◌∷◌ c (String.◌∷◌ d s))

-- What a run of decimal digits stands for, with no bound.
unfoldable pub value_from : ℕ → String → Option ℕ
value_from acc String.[] = some acc
value_from acc (String.◌∷◌ c s) =
    let rest = value_from (acc * 10 + (code c - 48)) s in if is_digit c then rest else none

-- Every number that is read fits a `u64`, and it is the one that the digits stand for.
pub digits_from_sound :
    (acc : ℕ) (s : String) (n : ℕ)
    → acc < u64_limit
    → digits_from acc s ≡ ok n
    → (n < u64_limit) × (value_from acc s ≡ some n)
unfolding digits_from value_from
digits_from_sound acc String.[] n b h = ground arith
digits_from_sound acc (String.◌∷◌ c s) n b h =
    ground (arith, digits_from_sound (acc * 10 + (code c - 48)) s n)

value_from-le : (acc : ℕ) (s : String) (n : ℕ) → value_from acc s ≡ some n → acc ≤ n
unfolding value_from
value_from-le acc String.[] n h = ground arith
value_from-le acc (String.◌∷◌ c s) n h =
    ground (arith, value_from-le (acc * 10 + (code c - 48)) s n)

pub digits_from_complete :
    (acc : ℕ) (s : String) (n : ℕ)
    → value_from acc s ≡ some n
    → n < u64_limit
    → digits_from acc s ≡ ok n
unfolding digits_from value_from
digits_from_complete acc String.[] n h b = ground arith
digits_from_complete acc (String.◌∷◌ c s) n h b =
    let next = acc * 10 + (code c - 48) in
    ground (arith, digits_from_complete next s n, value_from-le next s n)

pub parse_u64-lt : (s : String) (n : ℕ) → parse_u64 s ≡ ok n → n < u64_limit
unfolding parse_u64
parse_u64-lt String.[] n h = cc
parse_u64-lt (String.◌∷◌ c String.[]) n h = (digits_from_sound 0 (single c) n (omega arith) h).0
parse_u64-lt (String.◌∷◌ c (String.◌∷◌ d s)) n h = ground (
  arith,
  digits_from_sound 0 (String.◌∷◌ d s) n,
  digits_from_sound 0 (String.◌∷◌ c (String.◌∷◌ d s)) n,
)

parse_examples :
    (parse_u64 "2625" ≡ ok 2625)
    × (parse_u64 "+7" ≡ ok 7)
    × (parse_u64 "-1" ≡ err invalid_digit)
    × (parse_u64 "18446744073709551616" ≡ err pos_overflow)
unfolding parse_u64
parse_examples = (refl, refl, refl, refl)

-- The digit of a number below sixteen.
unfoldable pub nth_char : ℕ → String → String
nth_char n String.[] = String.[]
nth_char zero (String.◌∷◌ c s) = single c
nth_char (suc n) (String.◌∷◌ c s) = nth_char n s

-- The last `k` digits of a number in a base.
unfoldable pub digits_in : ℕ → ℕ → ℕ → String
unfolding nth_char
digits_in base zero n = String.[]
digits_in base (suc k) n = digits_in base k (n / base) <> nth_char (n % base) "0123456789abcdef"

-- How many decimal digits a number below 10 ^ k has.
unfoldable pub width : ℕ → ℕ → ℕ
width zero n = 1
width (suc k) n = let rest = width k (n / 10) in if ltb n 10 then 1 else suc rest

-- A `u64` has at most twenty decimal digits.
unfoldable pub to_decimal : ℕ → String
unfolding digits_in width
to_decimal n = digits_in 10 (width 20 n) n

-- `{:016x}` of a `u64`
unfoldable pub to_hex : ℕ → String
unfolding digits_in
to_hex n = digits_in 16 16 n

print_examples :
    (to_decimal 0 ≡ "0")
    × (to_decimal 402 ≡ "402")
    × (to_decimal 18446744073709551615 ≡ "18446744073709551615")
    × (to_hex 48879 ≡ "000000000000beef")
unfolding to_decimal to_hex
print_examples = (refl, refl, refl, refl)
