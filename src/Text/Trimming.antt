-- ===== src/Text/Trimming.antt =====
-- What trimming leaves, and where a text is found in another.
use Prim.Native.String.append
use text.Mathlib.Text.{starts_with}
use text.Mathlib.TextEquality.{starts_with_iff}
use text.Mathlib.TextPositions.{starts_with-append}
use solvela_client.Base.{
  Char, String, ◌<>◌, Bool, true, ◌≡◌, ◌↔◌, arith, Bool-cases, inl, inr, refl,
}
use solvela_client.Text.{
  is_empty, is_whitespace, trim_start_matches, trim_end_matches, trim, contains,
}

-- Every character passes a test.
abbrev pub AllChars : (Char → Bool) → String → Type 0
AllChars p String.[] = Unit
AllChars p (String.◌∷◌ c s) = (p c ≡ true) × AllChars p s

module _ (p : Char → Bool) where
  trim_start-empty : (s : String) → (is_empty (trim_start_matches p s) ≡ true) ↔ AllChars p s
  unfolding trim_start_matches
  trim_start-empty String.[] = (λ _. tt, λ _. refl)
  trim_start-empty (String.◌∷◌ c s) = ground (arith, trim_start-empty s)

  trim_end-empty : (s : String) → (is_empty (trim_end_matches p s) ≡ true) ↔ AllChars p s
  unfolding trim_end_matches
  trim_end-empty String.[] = (λ _. tt, λ _. refl)
  trim_end-empty (String.◌∷◌ c s) = ground (arith, trim_end-empty s)

  AllChars-trim_end : (s : String) → AllChars p (trim_end_matches p s) ↔ AllChars p s
  unfolding trim_end_matches
  AllChars-trim_end String.[] = (λ h. h, λ h. h)
  AllChars-trim_end (String.◌∷◌ c s) = ground (arith, AllChars-trim_end s, trim_end-empty s)

-- A text is blank exactly if trimming leaves nothing.
pub trim-empty_iff : (s : String) → (is_empty (trim s) ≡ true) ↔ AllChars is_whitespace s
unfolding trim
trim-empty_iff s =
    let (to, from) = trim_start-empty is_whitespace (trim_end_matches is_whitespace s) in
    let (shrink, grow) = AllChars-trim_end is_whitespace s in
    (λ h. shrink (to h), λ h. from (grow h))

-- One text stands in another.
abbrev pub IsInfix : String → String → Type 0
IsInfix part s = (before : String) × (after : String) × (before <> (part <> after) ≡ s)

pub contains_sound : (s part : String) → contains s part ≡ true → IsInfix part s
unfolding contains
contains_sound String.[] part h =
    let (after, e) = (starts_with_iff String.[] part).0 h in (String.[], after, rw append.nil e)
contains_sound (String.◌∷◌ c s) part h = elim (Bool-cases (starts_with (String.◌∷◌ c s) part)) [
  | inl here ↦
      let (after, e) = (starts_with_iff (String.◌∷◌ c s) part).0 here in
      (String.[], after, rw append.nil e)
  | inr later ↦
      let (before, after, e) = contains_sound s part (rw later at h) in
      (String.◌∷◌ c before, after, rw (append.cons, e))
]

contains_prefix : (s part : String) → starts_with s part ≡ true → contains s part ≡ true
unfolding contains
contains_prefix String.[] part h = h
contains_prefix (String.◌∷◌ c s) part h = rw h

pub contains_complete :
    (before part after : String) → contains (before <> (part <> after)) part ≡ true
unfolding contains
contains_complete String.[] part after =
    rw append.nil (contains_prefix (part <> after) part (starts_with-append part after))
contains_complete (String.◌∷◌ c before) part after =
    rw append.cons (ground (arith, contains_complete before part after))

pub contains_iff : (s part : String) → (contains s part ≡ true) ↔ IsInfix part s
contains_iff s part =
    (contains_sound s part, λ (before, after, e). rw (← e) (contains_complete before part after))
