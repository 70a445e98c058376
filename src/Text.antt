-- ===== src/Text.antt =====
-- The parts of Rust's `str`, `char` and integer parsing and formatting that the program calls.
-- A text is the native `String`, a list of Unicode scalar values.
pub mod Laws
pub mod Digits
pub mod Trimming
pub mod Columns
use Prim.Native.String.{len}
use text.Mathlib.Text.{starts_with}
use solvela_client.Base.{
  ℕ, zero, suc, ◌+◌, Char, code, String, ◌<>◌, Bool, true, false, ◌&&◌, ◌||◌, Option, none, some,
  List, [], ◌∷◌, leb, ◌==◌, nat_eq, if◌then◌else◌, ◌-◌,
}

-- `char::is_whitespace`: the Unicode property White_Space.
unfoldable pub is_whitespace : Char → Bool
unfolding nat_eq
is_whitespace c =
    let n = code c in
    leb 9 n && leb n 13
    || n == 32
    || n == 0x85
    || n == 0xa0
    || n == 0x1680
    || leb 0x2000 n && leb n 0x200a
    || n == 0x2028
    || n == 0x2029
    || n == 0x202f
    || n == 0x205f
    || n == 0x3000

abbrev pub is_empty : String → Bool
is_empty String.[] = true
is_empty (String.◌∷◌ c s) = false

abbrev pub single : Char → String
single c = String.◌∷◌ c String.[]

-- `trim_start_matches` and `trim_end_matches` with a test.
unfoldable pub trim_start_matches : (Char → Bool) → String → String
trim_start_matches p String.[] = String.[]
trim_start_matches p (String.◌∷◌ c s) =
    let rest = trim_start_matches p s in if p c then rest else String.◌∷◌ c s

unfoldable pub trim_end_matches : (Char → Bool) → String → String
trim_end_matches p String.[] = String.[]
trim_end_matches p (String.◌∷◌ c s) =
    let rest = trim_end_matches p s in if is_empty rest && p c then String.[] else String.◌∷◌ c rest

-- `str::trim`
unfoldable pub trim : String → String
unfolding trim_start_matches trim_end_matches is_whitespace
trim s = trim_start_matches is_whitespace (trim_end_matches is_whitespace s)

-- `str::split_whitespace`, with the word that is being read.
unfoldable pub split_from : String → String → List String
split_from word String.[] = if is_empty word then [] else word ∷ []
split_from word (String.◌∷◌ c s) =
    let rest = split_from (if is_whitespace c then String.[] else word <> single c) s in
    if is_whitespace c && (if is_empty word then false else true) then word ∷ rest else rest

unfoldable pub split_whitespace : String → List String
unfolding split_from is_whitespace
split_whitespace s = split_from String.[] s

-- `str::contains`
unfoldable pub contains : String → String → Bool
contains String.[] part = starts_with String.[] part
contains (String.◌∷◌ c s) part = starts_with (String.◌∷◌ c s) part || contains s part

-- `strip_prefix`
unfoldable pub strip_prefix : String → String → Option String
strip_prefix String.[] s = some s
strip_prefix (String.◌∷◌ c p) String.[] = none
strip_prefix (String.◌∷◌ c p) (String.◌∷◌ d s) = if code c == code d then strip_prefix p s else none

-- `[String]::join`
unfoldable pub join : String → List String → String
join sep [] = String.[]
join sep (s ∷ []) = s
join sep (s ∷ t ∷ rest) = s <> (sep <> join sep (t ∷ rest))

-- `chars().count()`, `chars().take(n)` and `chars().last()`
unfoldable pub char_count : String → ℕ
char_count String.[] = 0
char_count (String.◌∷◌ c s) = suc (char_count s)

unfoldable pub take_chars : ℕ → String → String
take_chars zero s = String.[]
take_chars (suc n) String.[] = String.[]
take_chars (suc n) (String.◌∷◌ c s) = String.◌∷◌ c (take_chars n s)

unfoldable pub last_char : String → Option Char
last_char String.[] = none
last_char (String.◌∷◌ c String.[]) = some c
last_char (String.◌∷◌ c (String.◌∷◌ d s)) = last_char (String.◌∷◌ d s)

-- `str::len`: the length in bytes of UTF-8.
abbrev pub byte_len : String → ℕ
byte_len = len

abbrev pick : ℕ → String → Char → Char
pick n String.[] other = other
pick zero (String.◌∷◌ c s) other = c
pick (suc n) (String.◌∷◌ c s) other = pick n s other

abbrev lower : Char → Char
lower c =
    if leb 65 (code c) && leb (code c) 90
    then pick (code c - 65) "abcdefghijklmnopqrstuvwxyz" c
    else c

-- `to_lowercase` on ASCII text.
unfoldable pub ascii_lowercase : String → String
ascii_lowercase String.[] = String.[]
ascii_lowercase (String.◌∷◌ c s) = String.◌∷◌ (lower c) (ascii_lowercase s)
