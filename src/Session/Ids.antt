-- ===== src/Session/Ids.antt =====
-- The session id of crates/solvela-client/src/session.rs is the sixteen hexadecimal digits of a
-- digest, and the digest can be read back from it.
use Prim.Native.String.append
use native.Mathlib.Nat.{pow-suc}
use solvela_client.Base.{
  ℕ, zero, suc, ◌+◌, ◌*◌, ◌/◌, ◌%◌, ◌^◌, ◌<◌, Char, code, String, ◌<>◌, ◌≡◌, refl, arith, ap, sym,
  ◌∙◌, leb, if◌then◌else◌, ◌-◌, passes_below, List, nat_eq, ◌==◌, [], ◌∷◌, true, eq_of_==, ◌↔◌,
  passes_below-true,
}
use solvela_client.Text.Digits.{nth_char, digits_in, to_hex, u64_limit}
use solvela_client.Session.{derive_session_id}
use solvela_client.Protocol.{ChatMessage}
use solvela_client.Text.{char_count, single}

abbrev hex_value : ℕ → String → ℕ
hex_value acc String.[] = acc
hex_value acc (String.◌∷◌ c s) =
    hex_value (acc * 16 + (if leb (code c) 57 then code c - 48 else code c - 87)) s

hex_value-append : (acc : ℕ) (s t : String) → hex_value acc (s <> t) ≡ hex_value (hex_value acc s) t
hex_value-append acc String.[] t = rw append.nil
hex_value-append acc (String.◌∷◌ c s) t =
    rw append.cons
      (hex_value-append (acc * 16 + (if leb (code c) 57 then code c - 48 else code c - 87)) s t)

nth_char-single : (d : ℕ) (s : String) → d < char_count s → (c : Char) × (nth_char d s ≡ single c)
unfolding nth_char char_count
nth_char-single d String.[] h = absurd (omega arith)
nth_char-single zero (String.◌∷◌ c s) h = (c, refl)
nth_char-single (suc d) (String.◌∷◌ c s) h = nth_char-single d s (omega arith)

hex_table : passes_below (λ d. hex_value 0 (nth_char d "0123456789abcdef") == d) 16 ≡ true
unfolding passes_below nth_char nat_eq
hex_table = refl

hex_value-nth_char :
    (acc d : ℕ) → d < 16 → hex_value acc (nth_char d "0123456789abcdef") ≡ acc * 16 + d
hex_value-nth_char acc d h =
    let (c, one) = nth_char-single d "0123456789abcdef" (unfold char_count in omega arith) in
    let value = eq_of_== {A = ℕ} _ _ (passes_below-true _ 16 d hex_table h) in
    rw one (omega (arith, rw one at value))

hex_value-digits_in : (k n : ℕ) → n < 16 ^ k → hex_value 0 (digits_in 16 k n) ≡ n
unfolding digits_in
hex_value-digits_in zero n h = omega arith
hex_value-digits_in (suc k) n h =
    let small : n < 16 ^ k * 16 = rw pow-suc at h in
    rw (hex_value-append, hex_value-digits_in k (n / 16) (omega (arith, small)))
      (rw (hex_value-nth_char (n / 16) (n % 16) (omega arith)) (omega arith))

-- The digest can be read back from a session id.
pub hex_value-to_hex : (n : ℕ) → n < u64_limit → hex_value 0 (to_hex n) ≡ n
unfolding to_hex
hex_value-to_hex n h = hex_value-digits_in 16 n h

-- If every digest fits in 64 bits: two conversations that are not empty have one session id
-- exactly if the digests of their first messages agree.
pub derive_session_id_iff :
    (sip : List String → ℕ)
    → ((texts : List String) → sip texts < u64_limit)
    → (m n : ChatMessage) (ms ns : List ChatMessage)
    → (derive_session_id sip (m ∷ ms) ≡ derive_session_id sip (n ∷ ns))
      ↔ (sip (m.content ∷ []) ≡ sip (n.content ∷ []))
unfolding derive_session_id
derive_session_id_iff sip bound m n ms ns = (
  λ same.
      sym (hex_value-to_hex _ (bound (m.content ∷ [])))
      ∙ ap (hex_value 0) same
      ∙ hex_value-to_hex _ (bound (n.content ∷ [])),
  λ same. ap to_hex same,
)
