-- ===== src/Text/Columns.antt =====
-- Texts in columns (`{:<width$}`, `{:>width$}`), and the order of texts.
use solvela_client.Base.{
  ℕ, zero, suc, ◌-◌, ◌≤◌, String, ◌<>◌, code, Bool, true, false, ltb, leb, nat_eq, if◌then◌else◌,
  ◌≡◌, refl, arith, ◌⊎◌, inl, inr,
}
use solvela_client.Text.{char_count}
use solvela_client.Text.Laws.{char_count-append}

-- `str::repeat`
unfoldable pub repeat : ℕ → String → String
repeat zero s = ""
repeat (suc n) s = s <> repeat n s

unfoldable pub pad_right : ℕ → String → String
unfolding repeat char_count
pad_right width s = s <> repeat (width - char_count s) " "

unfoldable pub pad_left : ℕ → String → String
unfolding repeat char_count
pad_left width s = repeat (width - char_count s) " " <> s

-- `str::cmp` is not `Greater`. The order of the bytes of UTF-8 is the order of the code points.
unfoldable pub le_text : String → String → Bool
le_text String.[] t = true
le_text (String.◌∷◌ c s) String.[] = false
le_text (String.◌∷◌ c s) (String.◌∷◌ d t) =
    let rest = le_text s t in
    if ltb (code c) (code d) then true else if leb (code c) (code d) then rest else false

pub le_text_refl : (s : String) → le_text s s ≡ true
unfolding le_text
le_text_refl String.[] = refl
le_text_refl (String.◌∷◌ c s) = ground (arith, le_text_refl s)

pub le_text_total : (s t : String) → (le_text s t ≡ true) ⊎ (le_text t s ≡ true)
unfolding le_text
le_text_total String.[] t = inl refl
le_text_total (String.◌∷◌ c s) String.[] = inr refl
le_text_total (String.◌∷◌ c s) (String.◌∷◌ d t) = ground (arith, le_text_total s t)

pub le_text_trans : (s t u : String) → le_text s t ≡ true → le_text t u ≡ true → le_text s u ≡ true
unfolding le_text
le_text_trans String.[] t u h k = refl
le_text_trans (String.◌∷◌ c s) String.[] u h k = absurd (cc h)
le_text_trans (String.◌∷◌ c s) (String.◌∷◌ d t) String.[] h k = absurd (cc k)
le_text_trans (String.◌∷◌ c s) (String.◌∷◌ d t) (String.◌∷◌ e u) h k =
    ground (arith, le_text_trans s t u)

pub char_count-repeat : (n : ℕ) (s : String) → char_count s ≡ 1 → char_count (repeat n s) ≡ n
unfolding char_count repeat
char_count-repeat zero s one = refl
char_count-repeat (suc n) s one =
    let whole = char_count-append s (repeat n s) in
    omega (arith, char_count-repeat n s one, whole, one)

-- A text that fits its column fills it.
pub char_count-pad_right :
    (width : ℕ) (s : String) → char_count s ≤ width → char_count (pad_right width s) ≡ width
unfolding pad_right char_count
char_count-pad_right width s fits = omega (
  arith,
  char_count-append s (repeat (width - char_count s) " "),
  char_count-repeat (width - char_count s) " " refl,
)

pub char_count-pad_left :
    (width : ℕ) (s : String) → char_count s ≤ width → char_count (pad_left width s) ≡ width
unfolding pad_left char_count
char_count-pad_left width s fits = omega (
  arith,
  char_count-append (repeat (width - char_count s) " ") s,
  char_count-repeat (width - char_count s) " " refl,
)
