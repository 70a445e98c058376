-- ===== src/Quality.antt =====
-- crates/solvela-client/src/quality.rs: detection of degraded responses. The Unicode tables of the
-- standard library that decide what a letter is and what its lower case is are a parameter.
pub mod Rules
use solvela_client.Base.{
  ℕ, Char, String, Bool, true, false, Option, none, some, List, [], ◌∷◌, map, ltb, length, any,
  if◌then◌else◌, string_eq,
}
use solvela_client.Base.Counting.{reaches}
use solvela_client.Text.{is_empty, trim, split_whitespace, contains, join, last_char, byte_len}
use solvela_client.Protocol.{ChatResponse}

pub record Unicode : Type 0 where
  pub is_alphanumeric : Char → Bool
  pub to_lowercase : String → String

pub data DegradedReason : Type 0 where
  empty_content repetitive_loop truncated_mid_word known_error_phrase : DegradedReason

abbrev pub known_error_phrases : List String
known_error_phrases = "i cannot" ∷ "as an ai" ∷ "i'm sorry, but i" ∷ []

abbrev pub repetition_window : ℕ
repetition_window = 3

abbrev pub repetition_threshold : ℕ
repetition_threshold = 5

abbrev pub truncation_min_len : ℕ
truncation_min_len = 100

unfoldable pub aggregate_content : ChatResponse → String
aggregate_content response = join " " (map (λ c. c.message.content) response.choices)

-- `words.windows(3)`
unfoldable pub windows : List String → List (List String)
windows (a ∷ b ∷ c ∷ rest) = (a ∷ b ∷ c ∷ []) ∷ windows (b ∷ c ∷ rest)
windows _ = []

-- The counting loop, which returns at the fifth occurrence of a phrase.
unfoldable pub has_repetitive_loop : String → Bool
has_repetitive_loop content =
    let words = split_whitespace content in
    if ltb (length words) repetition_window
    then false
    else reaches repetition_threshold (map (join " ") (windows words))

-- The fourth rule, the end of `is_degraded`.
unfoldable pub check_truncation : Unicode → String → Option DegradedReason
check_truncation u content =
    if ltb truncation_min_len (byte_len content)
    then elim (last_char content) [
      | none ↦ none
      | some c ↦ if u.is_alphanumeric c then some truncated_mid_word else none
    ]
    else none

unfoldable pub is_degraded : Unicode → ChatResponse → Option DegradedReason
is_degraded u response =
    let content = aggregate_content response in
    let lower = u.to_lowercase content in
    if is_empty (trim content)
    then some empty_content
    else if any (contains lower) known_error_phrases
    then some known_error_phrase
    else if has_repetitive_loop content
    then some repetitive_loop
    else check_truncation u content
