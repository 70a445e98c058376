-- ===== src/Quality/Rules.antt =====
-- The verdict of crates/solvela-client/src/quality.rs, against a description of the four rules that
-- names neither the loops nor the hash map.
use mathlib.Core.List.{Memᴰ, [], ◌∷◌}
use solvela_client.Base.{
  ◌≤◌, ◌<◌, Char, String, Bool, true, false, Option, none, some, List, map, count, ◌≡◌, ◌↔◌, arith,
  length, any, any_iff, string_eq, Bool-cases, Option-cases, inl, inr, refl, ltb, ltb→lt, ◌⊎◌,
}
use solvela_client.Base.Counting.{reaches_iff}
use solvela_client.Text.{is_whitespace, split_whitespace, contains, join, last_char, byte_len}
use solvela_client.Text.Trimming.{AllChars, IsInfix, trim-empty_iff, contains_iff}
use solvela_client.Protocol.{ChatResponse}
use solvela_client.Quality.{
  Unicode, DegradedReason, known_error_phrases, aggregate_content, windows, has_repetitive_loop,
  is_degraded, is_empty, trim, check_truncation, truncated_mid_word,
}

-- Nothing but white space.
abbrev pub IsBlank : String → Type 0
IsBlank content = AllChars is_whitespace content

-- A known phrase stands in the text, whatever its letter case.
abbrev pub HasErrorPhrase : Unicode → String → Type 0
HasErrorPhrase u content =
    (phrase : String) × Memᴰ phrase known_error_phrases × IsInfix phrase (u.to_lowercase content)

-- The runs of three words, in order.
unfoldable pub phrases : String → List String
phrases content = map (join " ") (windows (split_whitespace content))

-- A run of three words occurs five times.
abbrev pub IsRepetitive : String → Type 0
IsRepetitive content = (phrase : String) × (5 ≤ count phrase (phrases content))

-- More than a hundred bytes, and a letter or digit at the end.
abbrev pub IsTruncated : Unicode → String → Type 0
IsTruncated u content =
    (100 < byte_len content)
    × ((c : Char) × (last_char content ≡ some c) × (u.is_alphanumeric c ≡ true))

-- What each verdict says of the text. No two verdicts fit one text.
abbrev pub Verdict : Unicode → String → Option DegradedReason → Type 0
Verdict u content (some DegradedReason.empty_content) = IsBlank content
Verdict u content (some DegradedReason.known_error_phrase) =
    (¬ IsBlank content) × HasErrorPhrase u content
Verdict u content (some DegradedReason.repetitive_loop) =
    (¬ IsBlank content) × (¬ HasErrorPhrase u content) × IsRepetitive content
Verdict u content (some DegradedReason.truncated_mid_word) =
    (¬ IsBlank content)
    × (¬ HasErrorPhrase u content)
    × (¬ IsRepetitive content)
    × IsTruncated u content
Verdict u content none =
    (¬ IsBlank content)
    × (¬ HasErrorPhrase u content)
    × (¬ IsRepetitive content)
    × (¬ IsTruncated u content)

windows_short : (words : List String) → length words < 3 → windows words ≡ []
unfolding windows
windows_short [] h = refl
windows_short (a ∷ []) h = refl
windows_short (a ∷ b ∷ []) h = refl
windows_short (a ∷ b ∷ c ∷ rest) h = absurd (omega arith)

has_repetitive_loop_iff :
    (content : String) → (has_repetitive_loop content ≡ true) ↔ IsRepetitive content
unfolding has_repetitive_loop phrases
has_repetitive_loop_iff content =
    let words = split_whitespace content in
    let (sound, complete) = reaches_iff 5 (phrases content) (omega arith) in
    elim (Bool-cases (ltb (length words) 3)) [
      | inl short ↦ (
        λ h. absurd (ground arith),
        λ (phrase, many).
            let none_left = windows_short words (ltb→lt _ _ short) in
            absurd (ground (arith, none_left)),
      )
      | inr enough ↦ (λ h. sound (ground arith), λ r. ground (arith, complete r))
    ]

HasErrorPhrase-iff :
    (u : Unicode) (content : String)
    → (any (contains (u.to_lowercase content)) known_error_phrases ≡ true)
      ↔ HasErrorPhrase u content
HasErrorPhrase-iff u content =
    let lower = u.to_lowercase content in
    let (sound, complete) = any_iff (contains lower) known_error_phrases in
    (
      λ h. let (phrase, m, c) = sound h in (phrase, m, (contains_iff lower phrase).0 c),
      λ (phrase, m, i). complete (phrase, m, (contains_iff lower phrase).1 i),
    )

not_of_false : {P : Type 0} {b : Bool} → ((b ≡ true) ↔ P) → b ≡ false → ¬ P
not_of_false (to, from) h p = cc (from p)

check_truncation-cases :
    (u : Unicode) (content : String)
    → ((check_truncation u content ≡ some truncated_mid_word) × IsTruncated u content)
      ⊎ ((check_truncation u content ≡ none) × (¬ IsTruncated u content))
unfolding check_truncation
check_truncation-cases u content = elim (Bool-cases (ltb 100 (byte_len content))) [
  | inr short ↦ inr (ground arith, λ t. absurd (ground (arith, t.0)))
  | inl long ↦ elim (Option-cases (last_char content)) [
    | inl empty ↦ inr (ground arith, λ t. absurd (ground (arith, t.1.1)))
    | inr (c, last) ↦ elim (Bool-cases (u.is_alphanumeric c)) [
      | inl letter ↦ inl (ground arith, (ltb→lt _ _ long, (c, last, letter)))
      | inr other ↦ inr (ground arith, λ t. absurd (ground (arith, t.1.1, t.1.2)))
    ]
  ]
]

-- The verdict of `is_degraded` is right about the aggregated text, by the first rule that fits.
pub is_degraded-Verdict :
    (u : Unicode) (response : ChatResponse)
    → Verdict u (aggregate_content response) (is_degraded u response)
unfolding is_degraded
is_degraded-Verdict u response =
    let content = aggregate_content response in
    elim (Bool-cases (is_empty (trim content))) [
      | inl blank ↦ rw blank ((trim-empty_iff content).0 blank)
      | inr solid ↦
          let solid' = not_of_false (trim-empty_iff content) solid in
          elim (Bool-cases (any (contains (u.to_lowercase content)) known_error_phrases)) [
            | inl said ↦ rw (solid, said) (solid', (HasErrorPhrase-iff u content).0 said)
            | inr unsaid ↦
                let unsaid' = not_of_false (HasErrorPhrase-iff u content) unsaid in
                elim (Bool-cases (has_repetitive_loop content)) [
                  | inl loops ↦
                      rw (solid, unsaid, loops)
                        (solid', unsaid', (has_repetitive_loop_iff content).0 loops)
                  | inr varied ↦
                      let varied' = not_of_false (has_repetitive_loop_iff content) varied in
                      elim (check_truncation-cases u content) [
                        | inl (cut, t) ↦
                            rw (solid, unsaid, varied, cut) (solid', unsaid', varied', t)
                        | inr (whole, t) ↦
                            rw (solid, unsaid, varied, whole) (solid', unsaid', varied', t)
                      ]
                ]
          ]
    ]
