-- ===== src/Cli/Models.antt =====
-- crates/solvela-client-cli/src/commands/models.rs.
pub mod Order
pub mod Table
use solvela_client.Base.{
  ℕ, ◌+◌, ◌-◌, ◌*◌, ◌/◌, String, ◌<>◌, Bool, true, false, not, ◌||◌, Option, none, some, List, [],
  ◌∷◌, leb, keep, length, if◌then◌else◌, ◌==◌, string_eq,
}
use solvela_client.Base.Outcome.{Outcome, try, map_fail}
use solvela_client.Base.Exec.{pure, lift, ◌>>=◌}
use solvela_client.Base.Sorting.{sort_by}
use solvela_client.Text.{char_count, take_chars}
use solvela_client.Text.Columns.{repeat, pad_left, pad_right, le_text}
use solvela_client.Text.Digits.{to_decimal}
use solvela_client.Protocol.{ModelInfo}
use solvela_client.Error.{display_wallet_error}
use solvela_client.Config.{Setting, configure}
use solvela_client.Wallet.{Wallet}
use solvela_client.Wallet
use solvela_client.Cache.{LruCache}
use solvela_client.Platform.{Platform}
use solvela_client.Client.{SolvelaClient}
use solvela_client.Client
use solvela_client.Client.Queries.{models}
use solvela_client.Cli.{GatewayArgs, Host, Command, println, on_world, explain}

-- `retain`, if a provider is asked for.
unfoldable pub retain_provider : (String → String) → Option String → List ModelInfo → List ModelInfo
retain_provider to_lowercase none models = models
retain_provider to_lowercase (some filter) models =
    keep (λ m. to_lowercase m.provider == to_lowercase filter) models

unfoldable pub apply_filter_and_sort :
    (String → String) → List ModelInfo → Option String → List ModelInfo
unfolding retain_provider sort_by le_text
apply_filter_and_sort to_lowercase models provider =
    sort_by (λ a b. le_text a.id b.id) (retain_provider to_lowercase provider models)

unfoldable pub format_context : ℕ → String
unfolding to_decimal
format_context tokens =
    if leb 1_000_000 tokens
    then to_decimal (tokens / 1_000_000) <> "M"
    else if leb 1_000 tokens
    then to_decimal (tokens / 1_000) <> "K"
    else to_decimal tokens

unfoldable pub truncate : String → ℕ → String
unfolding char_count take_chars
truncate s max = if leb (char_count s) max then s else take_chars (max - 3) s <> "..."

abbrev pub id_w : ℕ
id_w = 35

abbrev pub prov_w : ℕ
prov_w = 12

abbrev pub cost_w : ℕ
cost_w = 10

abbrev pub ctx_w : ℕ
ctx_w = 8

-- The columns and the four spaces between them.
abbrev pub table_width : ℕ
table_width = id_w + prov_w + cost_w * 2 + ctx_w + 4

unfoldable pub header_line : String
unfolding pad_left pad_right
header_line =
    pad_right id_w "ID"
    <> (" "
        <> (pad_right prov_w "Provider"
            <> (" "
                <> (pad_left cost_w "In $/M"
                    <> (" " <> (pad_left cost_w "Out $/M" <> (" " <> pad_left ctx_w "Context")))))))

unfoldable pub rule_line : String
unfolding repeat
rule_line = repeat table_width "-"

module _ (host : Host) where
  unfoldable pub model_line : ModelInfo → String
  unfolding pad_left pad_right truncate format_context
  model_line m =
      pad_right id_w (truncate m.id id_w)
      <> (" "
          <> (pad_right prov_w (truncate m.provider prov_w)
              <> (" "
                  <> (pad_left cost_w (host.fixed4 m.input_cost_per_million)
                      <> (" "
                          <> (pad_left cost_w (host.fixed4 m.output_cost_per_million)
                              <> (" " <> pad_left ctx_w (format_context m.context_window))))))))

  unfoldable pub print_rows : List ModelInfo → Command (Unit {0})
  unfolding model_line
  print_rows [] = pure tt
  print_rows (m ∷ rest) = do row ← println (model_line m); print_rows rest

  unfoldable pub print_table : List ModelInfo → Command (Unit {0})
  unfolding print_rows header_line rule_line to_decimal
  print_table models = do
    l1 ← println header_line
    l2 ← println rule_line
    rows ← print_rows models
    l3 ← println ""
    println (to_decimal (length models) <> " model(s)")

  unfoldable pub show_models : Bool → List ModelInfo → Command (Unit {0})
  unfolding print_table
  show_models json chosen =
      if json || not host.stdout_is_terminal
      then lift (try (λ e. "failed to serialize models: " <> e) (host.models_json chosen))
        >>= println
      else print_table chosen

module _ (L : LruCache) (p : Platform) (host : Host) where
  abbrev pub throwaway : Outcome String (Wallet × String)
  throwaway = map_fail display_wallet_error (Wallet.create p.crypto host.entropy)

  abbrev pub models_client : GatewayArgs → Wallet → Outcome String (SolvelaClient L)
  models_client gateway_args wallet = map_fail (explain host "failed to create client: ") (
      Client.new L host.http_built wallet
        (configure (Setting.gateway_url gateway_args.gateway ∷ [])))

  unfoldable pub run : Option String → Bool → GatewayArgs → Command (Unit {0})
  run provider json gateway_args = do
    (wallet, mnemonic) ← lift throwaway
    client ← lift (models_client gateway_args wallet)
    listed ← on_world (explain host "failed to fetch models: ") (models p client.config)
    let chosen = apply_filter_and_sort p.unicode.to_lowercase listed provider
    show_models host json chosen
