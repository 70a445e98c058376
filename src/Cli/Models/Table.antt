-- ===== src/Cli/Models/Table.antt =====
-- The table of crates/solvela-client-cli/src/commands/models.rs: its columns line up.
use solvela_client.Base.{
  ℕ, zero, suc, ◌+◌, ◌*◌, ◌/◌, ◌%◌, ◌^◌, ◌≤◌, ◌<◌, String, ◌<>◌, ◌≡◌, refl, arith, leb, Bool-cases,
  inl, inr, ◌-◌, ◌∙◌, sym,
}
use solvela_client.Text.{char_count, take_chars}
use solvela_client.Text.Laws.{char_count-append, char_count-take_chars}
use solvela_client.Text.Columns.{
  pad_left, pad_right, char_count-pad_left, char_count-pad_right, char_count-repeat,
}
use solvela_client.Text.Digits.{to_decimal, digits_in, nth_char, width}
use solvela_client.Protocol.{ModelInfo}
use solvela_client.Cli.{Host}
use solvela_client.Cli.Models.{
  id_w, prov_w, cost_w, ctx_w, table_width, truncate, format_context, model_line, header_line,
  rule_line,
}

pub char_count-truncate : (s : String) (max : ℕ) → 3 ≤ max → char_count (truncate s max) ≤ max
unfolding truncate
char_count-truncate s max wide = elim (Bool-cases (leb (char_count s) max)) [
  | inl fits ↦ rw fits (ground arith)
  | inr long ↦
      let cut = char_count-take_chars (max - 3) s in
      rw long (omega (arith, cut, char_count-append (take_chars (max - 3) s) "..."))
]

char_count-nth_char : (n : ℕ) (s : String) → n < char_count s → char_count (nth_char n s) ≡ 1
unfolding nth_char char_count
char_count-nth_char n String.[] small = absurd (omega arith)
char_count-nth_char zero (String.◌∷◌ c s) small = refl
char_count-nth_char (suc n) (String.◌∷◌ c s) small = char_count-nth_char n s (omega arith)

char_count-digits_in : (k n : ℕ) → char_count (digits_in 10 k n) ≡ k
unfolding digits_in char_count
char_count-digits_in zero n = refl
char_count-digits_in (suc k) n =
    let one = char_count-nth_char (n % 10) "0123456789abcdef" (omega arith) in
    omega (
      arith,
      char_count-append (digits_in 10 k (n / 10)) (nth_char (n % 10) "0123456789abcdef"),
      char_count-digits_in k (n / 10),
      one,
    )

-- Ten times the numbers have one more digit.
width-step :
    (limit digits : ℕ)
    → ((k n : ℕ) → n < limit → width k n ≤ digits)
    → (k n : ℕ) → n < 10 * limit
    → width k n ≤ suc digits
unfolding width
width-step limit digits few zero n small = omega arith
width-step limit digits few (suc k) n small = ground (arith, few k (n / 10))

width-one : (k n : ℕ) → n < 10 → width k n ≤ 1
unfolding width
width-one zero n small = omega arith
width-one (suc k) n small = ground arith

char_count-to_decimal : (n : ℕ) → n < 10_000 → char_count (to_decimal n) ≤ 4
unfolding to_decimal
char_count-to_decimal n small =
    let few = width-step 1000 3 (width-step 100 2 (width-step 10 1 width-one)) 20 n small in
    omega (arith, few, char_count-digits_in (width 20 n) n)

char_count-format_context : (tokens : ℕ) → tokens < 2 ^ 32 → char_count (format_context tokens) ≤ 5
unfolding format_context char_count
char_count-format_context tokens small = elim (Bool-cases (leb 1_000_000 tokens)) [
  | inl millions ↦ rw millions (with_unit (tokens / 1_000_000) "M" (omega arith) refl)
  | inr fewer ↦ elim (Bool-cases (leb 1_000 tokens)) [
    | inl thousands ↦ rw (fewer, thousands) (with_unit (tokens / 1_000) "K" (ground arith) refl)
    | inr few ↦
        let short = char_count-to_decimal tokens (ground arith) in
        rw (fewer, few) (omega (arith, short))
  ]
]
  where
    with_unit :
        (n : ℕ) (unit : String)
        → n < 10_000
        → char_count unit ≡ 1
        → char_count (to_decimal n <> unit) ≤ 5
    with_unit n unit low one =
        omega (arith, char_count-append (to_decimal n) unit, char_count-to_decimal n low, one)

-- A text after another and a space.
char_count-after :
    (a rest : String) (m n : ℕ)
    → char_count a ≡ m
    → char_count rest ≡ n
    → char_count (a <> (" " <> rest)) ≡ m + (1 + n)
unfolding char_count
char_count-after a rest m n h k =
    omega (arith, char_count-append a (" " <> rest), char_count-append " " rest, h, k)

char_count-line :
    (a b c d e : String)
    → char_count a ≡ id_w
    → char_count b ≡ prov_w
    → char_count c ≡ cost_w
    → char_count d ≡ cost_w
    → char_count e ≡ ctx_w
    → char_count (a <> (" " <> (b <> (" " <> (c <> (" " <> (d <> (" " <> e)))))))) ≡ table_width
char_count-line a b c d e ha hb hc hd he = char_count-after a _ id_w 43 ha (
    char_count-after b _ prov_w 30 hb
      (char_count-after c _ cost_w 19 hc (char_count-after d e cost_w ctx_w hd he)))

module _ (host : Host) where
  -- Where the printed costs of a model fit their columns, and its context window is a 32-bit number,
  -- the model's line has as many characters as the header and the rule, however long its id and its
  -- provider's name are.
  pub model_line-rule_line :
      (m : ModelInfo)
      → char_count (host.fixed4 m.input_cost_per_million) ≤ cost_w
      → char_count (host.fixed4 m.output_cost_per_million) ≤ cost_w
      → m.context_window < 2 ^ 32
      → (char_count (model_line host m) ≡ char_count rule_line)
        × (char_count header_line ≡ char_count rule_line)
  unfolding model_line header_line rule_line char_count
  model_line-rule_line m input_fits output_fits small =
      let rule = char_count-repeat table_width "-" refl in
      (
        char_count-line _ _ _ _ _
              (char_count-pad_right id_w (truncate m.id id_w)
                (char_count-truncate m.id id_w (omega arith)))
              (char_count-pad_right prov_w (truncate m.provider prov_w)
                (char_count-truncate m.provider prov_w (omega arith)))
              (char_count-pad_left cost_w _ input_fits) (char_count-pad_left cost_w _ output_fits)
              (char_count-pad_left ctx_w _
                (omega (arith, char_count-format_context m.context_window small)))
            ∙ sym rule,
        char_count-line (pad_right id_w "ID") (pad_right prov_w "Provider")
              (pad_left cost_w "In $/M") (pad_left cost_w "Out $/M") (pad_left ctx_w "Context")
              (char_count-pad_right id_w "ID" (omega arith))
              (char_count-pad_right prov_w "Provider" (omega arith))
              (char_count-pad_left cost_w "In $/M" (omega arith))
              (char_count-pad_left cost_w "Out $/M" (omega arith))
              (char_count-pad_left ctx_w "Context" (omega arith))
            ∙ sym rule,
      )
