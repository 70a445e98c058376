-- ===== src/Text/Laws.antt =====
-- Laws of the text functions: trimming, counting, cutting.
use Prim.Native.String.append
use solvela_client.Base.{
  ℕ, zero, suc, ◌+◌, Char, String, ◌<>◌, Bool, false, none, some, arith, ◌≡◌, refl, min,
  if◌then◌else◌,
}
use solvela_client.Text.{is_empty, trim_end_matches, char_count, take_chars, last_char}

pub last_char-cons :
    (c : Char) (s : String)
    → last_char (String.◌∷◌ c s) ≡ (if is_empty s then some c else last_char s)
unfolding last_char
last_char-cons c String.[] = refl
last_char-cons c (String.◌∷◌ d s) = refl

-- What is trimmed at the end does not end with a trimmed character.
pub last_char-trim_end_matches :
    (p : Char → Bool) (s : String) (c : Char)
    → last_char (trim_end_matches p s) ≡ some c
    → p c ≡ false
unfolding trim_end_matches
last_char-trim_end_matches p String.[] c h = unfold last_char in cc h
last_char-trim_end_matches p (String.◌∷◌ d s) c h = ground (
  arith,
  last_char-trim_end_matches p s c,
  last_char-cons d (trim_end_matches p s),
  last_char_nil,
)
  where
    last_char_nil : last_char String.[] ≡ none
    last_char_nil = unfold last_char in refl

-- Trimming twice is trimming once.
pub trim_end_matches_idem :
    (p : Char → Bool) (s : String)
    → trim_end_matches p (trim_end_matches p s) ≡ trim_end_matches p s
unfolding trim_end_matches
trim_end_matches_idem p String.[] = refl
trim_end_matches_idem p (String.◌∷◌ d s) = ground (arith, trim_end_matches_idem p s)

pub char_count-append : (s t : String) → char_count (s <> t) ≡ char_count s + char_count t
unfolding char_count
char_count-append String.[] t = rw append.nil (omega arith)
char_count-append (String.◌∷◌ c s) t = rw append.cons (omega (arith, char_count-append s t))

pub char_count-take_chars :
    (n : ℕ) (s : String) → char_count (take_chars n s) ≡ min n (char_count s)
unfolding char_count take_chars
char_count-take_chars zero s = omega arith
char_count-take_chars (suc n) String.[] = omega arith
char_count-take_chars (suc n) (String.◌∷◌ c s) = omega (arith, char_count-take_chars n s)
