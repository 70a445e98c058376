-- ===== src/Client/Queries.antt =====
-- crates/solvela-client/src/client.rs: the methods that ask the gateway, and never pay.
use solvela_client.Base.{ℕ, String, ◌<>◌, false, none, List, [], ◌∷◌, ◌==◌, nat_eq, if◌then◌else◌}
use solvela_client.Base.Outcome.{Outcome, done, fail, panic, try}
use solvela_client.Base.Exec.{Exec, lift, ◌>>=◌}
use solvela_client.Protocol.{ChatRequest, CostBreakdown, ModelInfo, Role}
use solvela_client.Error.{ClientError}
use solvela_client.Config.{ClientConfig}
use solvela_client.Wallet.{Wallet}
use solvela_client.Net.{HttpRequest, World, no_body, send}
use solvela_client.Platform.{Platform}
use solvela_client.Handshake.{post, text, parse_402}
use solvela_client.Client.{chat_url}

abbrev models_request : ClientConfig → HttpRequest
models_request config = record {
  method = "GET";
  url = config.gateway_url <> "/v1/models";
  headers = [];
  payload = no_body;
}

unfoldable pub read_models : Platform → ℕ → String → Outcome ClientError (List ModelInfo)
unfolding nat_eq
read_models p status body =
    if status == 200
    then try ClientError.parse_error (p.serde.models body)
    else fail (ClientError.gateway status body)

unfoldable pub models : Platform → ClientConfig → Exec World ClientError (List ModelInfo)
models p config = do
  resp ← send ClientError.network p.net (models_request config)
  body ← lift (text resp)
  lift (read_models p resp.status body)

abbrev pub estimate_probe : String → ChatRequest
estimate_probe model = record {
  model = model;
  messages =
      record {
        role = Role.user;
        content = "cost estimate probe";
        name = none;
        tool_calls = none;
        tool_call_id = none;
      }
      ∷ [];
  max_tokens = none;
  temperature = none;
  top_p = none;
  stream = false;
  tools = none;
  tool_choice = none;
}

abbrev pub free_cost : CostBreakdown
free_cost = record {
  provider_cost = "0.000000";
  platform_fee = "0.000000";
  total = "0.000000";
  currency = "USDC";
  fee_percent = 0;
}

unfoldable pub read_estimate :
    Platform → Wallet → ClientConfig → ℕ → String → Outcome ClientError CostBreakdown
unfolding nat_eq
read_estimate p wallet config status body =
    if status == 402
    then elim (parse_402 p wallet config body) [
      | done pr ↦ done pr.cost_breakdown
      | fail e ↦ fail e
      | panic ↦ panic
    ]
    else if status == 200
    then done free_cost
    else fail (ClientError.gateway status body)

unfoldable pub estimate_cost :
    Platform → Wallet → ClientConfig → String → Exec World ClientError CostBreakdown
estimate_cost p wallet config model = do
  resp ← send ClientError.network p.net (post (chat_url config) [] (estimate_probe model))
  body ← lift (text resp)
  lift (read_estimate p wallet config resp.status body)
