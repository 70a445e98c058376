-- ===== src/Cli/Doctor.antt =====
-- crates/solvela-client-cli/src/commands/doctor.rs: six checks, each of which prints a line.
pub mod Effects
pub mod Lines
pub mod Steps
pub mod Checks
use solvela_client.Base.{
  ℕ, zero, suc, String, ◌<>◌, Bool, true, false, not, ◌||◌, Option, none, some, is_some, List, [],
  ◌∷◌, any, length, if◌then◌else◌, ◌==◌, string_eq, nat_eq, map,
}
use solvela_client.Base.Outcome.{Result, ok, err, Outcome, done, fail, panic}
use solvela_client.Base.Exec.{pure, raise, lift, ◌>>=◌, Exec}
use solvela_client.Text.Digits.{to_decimal}
use solvela_client.Protocol.{ChatRequest, Json, ModelInfo, PaymentRequired, Role}
use solvela_client.Error.{NetError, ClientError, display_client_error}
use solvela_client.Config.{trim_slashes}
use solvela_client.Wallet.{Wallet, address}
use solvela_client.KeyFile.{WalletArgs, load_wallet}
use solvela_client.Net.{HttpRequest, HttpResponse, Payload, no_body, rpc, is_success, exchange}
use solvela_client.Payment.{parsed}
use solvela_client.Handshake.{post, text_or_default}
use solvela_client.Platform.{Platform}
use solvela_client.Floats.{Floats}
use solvela_client.Cache.{LruCache}
use solvela_client.Client.{SolvelaClient}
use solvela_client.Client
use solvela_client.Client.Funds.{usdc_balance}
use solvela_client.Cli.{
  GatewayArgs, RpcArgs, Host, Shell, SlotReply, Command, println, config_for, World,
}

-- Prints the line of a check, and gives what it found.
abbrev pub report : {A : Type 0} → String → A → Command A
report line a = println line >>= (λ printed. pure a)

abbrev pub get : String → HttpRequest
get url = record { method = "GET"; url = url; headers = []; payload = no_body }

-- `build().map_err(…)?`, and what follows.
abbrev pub with_http : Option String → Command (Unit {0}) → Command (Unit {0})
with_http (some e) rest = raise ("failed to build HTTP client: " <> e)
with_http none rest = rest

-- A call whose failure is a result.
abbrev pub call : Platform → HttpRequest → Command (Result NetError HttpResponse)
call p request s = let r = exchange p.net request s.world in (done r.0, record s { world = r.1 })

-- An action of the client whose outcome is matched on.
abbrev pub attempt : {A : Type 0} → Exec World ClientError A → Command (Outcome ClientError A)
attempt m s = (done (m s.world).0, record s { world = (m s.world).1 })

-- `collect::<HashSet<_>>().len()`
unfoldable pub distinct : List String → ℕ
distinct [] = 0
distinct (x ∷ xs) = let rest = distinct xs in if any (λ y. x == y) xs then rest else suc rest

-- `resp.json().await.unwrap_or_default()`: `Null` has neither a result nor an error.
abbrev pub slot_of : Host → HttpResponse → SlotReply
slot_of host resp = elim (parsed host.slot_reply resp) [
  | err e ↦ record { slot = none; has_error = false; text = "null" }
  | ok json ↦ json
]

-- The probe is written as JSON, an object with a chat request's fields `model`, `messages` and
-- `stream`.
abbrev pub doctor_probe : ChatRequest
doctor_probe = record {
  model = "auto";
  messages =
      record {
        role = Role.user;
        content = "doctor probe";
        name = none;
        tool_calls = none;
        tool_call_id = none;
      }
      ∷ [];
  max_tokens = none;
  temperature = none;
  top_p = none;
  stream = false;
  tools = none;
  tool_choice = none;
}

module _ (p : Platform) (host : Host) where
  abbrev status_of : HttpResponse → String
  status_of resp = p.solana.display_status resp.status

  unfoldable pub check_wallet : WalletArgs → Command (Option Wallet)
  check_wallet wallet_args s = elim (load_wallet p.crypto host.os s.files wallet_args) [
    | done w ↦ report ("[ok]  Wallet loaded: " <> address p.crypto w) (some w) s
    | fail e ↦ report ("[FAIL] Wallet: " <> e) none s
    | panic ↦ (panic, s)
  ]

  unfoldable pub read_gateway : String → Result NetError HttpResponse → Command Bool
  read_gateway gateway_url (err e) = report ("[FAIL] Gateway unreachable: " <> e.message) false
  read_gateway gateway_url (ok resp) =
      if is_success resp.status
      then report ("[ok]  Gateway reachable: " <> gateway_url) true
      else report ("[FAIL] Gateway returned HTTP " <> (status_of resp <> (": " <> gateway_url)))
          false

  unfoldable pub check_gateway : String → Command Bool
  unfolding read_gateway exchange
  check_gateway gateway_url = do
    answer ← call p (get (gateway_url <> "/health"))
    read_gateway gateway_url answer

  unfoldable pub models_line : Result NetError HttpResponse → String
  unfolding distinct to_decimal
  models_line (err e) = "[FAIL] Models: " <> e.message
  models_line (ok resp) =
      if is_success resp.status
      then elim (p.serde.models (text_or_default resp)) [
        | ok models ↦
            "[ok]  Models available: "
            <> (to_decimal (length models)
                <> (" model(s) from "
                    <> (to_decimal (distinct (map (λ m. m.provider) models)) <> " provider(s)")))
        | err e ↦ "[FAIL] Models: failed to parse response: " <> e
      ]
      else "[FAIL] Models endpoint returned HTTP " <> status_of resp

  unfoldable pub check_models : String → Bool → Command (Unit {0})
  unfolding models_line exchange
  check_models gateway_url gateway_ok =
      if gateway_ok
      then (do answer ← call p (get (gateway_url <> "/v1/models")); println (models_line answer))
      else println "[--]  Models: skipped (gateway unreachable)"

  -- What a JSON answer says, by its slot.
  abbrev pub report_slot : SlotReply → Option ℕ → Command Bool
  report_slot json (some slot) =
      report ("[ok]  Solana RPC reachable: slot " <> to_decimal slot) true
  report_slot json none =
      if json.has_error
      then report ("[FAIL] Solana RPC error: " <> json.text) false
      else report "[WARN] Solana RPC reachable but unexpected response" true

  unfoldable pub read_slot : Result NetError HttpResponse → Command Bool
  unfolding to_decimal
  read_slot (err e) = report ("[FAIL] Solana RPC unreachable: " <> e.message) false
  read_slot (ok resp) =
      let json = slot_of host resp in
      if is_success resp.status
      then report_slot json json.slot
      else report ("[FAIL] Solana RPC returned HTTP " <> status_of resp) false

  unfoldable pub check_rpc : String → Command Bool
  unfolding read_slot exchange
  check_rpc rpc_url = do
    answer ←
        call p (record { method = "POST"; url = rpc_url; headers = []; payload = rpc "getSlot" [] })
    read_slot answer

  unfoldable pub flow_line : Result NetError HttpResponse → String
  unfolding to_decimal nat_eq
  flow_line (err e) = "[FAIL] Payment flow: " <> e.message
  flow_line (ok resp) =
      if resp.status == 402
      then elim (p.serde.payment_required (text_or_default resp)) [
        | ok pr ↦
            "[ok]  Payment flow: 402 received, "
            <> (to_decimal (length pr.accepts)
                <> (" scheme(s), total "
                    <> (pr.cost_breakdown.total <> (" " <> pr.cost_breakdown.currency))))
        | err e ↦ "[FAIL] Payment flow: 402 received but invalid body: " <> e
      ]
      else if is_success resp.status
      then "[ok]  Payment flow: model returned 200 (free/cached)"
      else "[FAIL] Payment flow: unexpected HTTP " <> status_of resp

  unfoldable pub check_payment_flow : String → Bool → Command (Unit {0})
  unfolding flow_line exchange
  check_payment_flow gateway_url gateway_ok =
      if gateway_ok
      then (do
        answer ← call p (post (gateway_url <> "/v1/chat/completions") [] doctor_probe)
        println (flow_line answer))
      else println "[--]  Payment flow: skipped (gateway unreachable)"

module _ (F : Floats) (L : LruCache) (p : Platform) (host : Host) where
  -- What is printed of the query's outcome.
  unfoldable pub report_balance : Outcome ClientError F.F64 → Command (Unit {0})
  report_balance (done balance) =
      if F.lt balance F.hundredth
      then println (
          "[WARN] USDC balance: "
          <> (F.fixed6 balance <> " (low balance, may not be enough for requests)"))
      else println ("[ok]  USDC balance: " <> F.fixed6 balance)
  report_balance (fail e) =
      println ("[FAIL] USDC balance: " <> display_client_error host.debug_duration e)
  report_balance panic = lift panic

  unfoldable pub query_balance : Outcome ClientError (SolvelaClient L) → Command (Unit {0})
  query_balance (done client) = do
    balance ← attempt (usdc_balance F p client.config client.wallet)
    report_balance balance
  query_balance (fail e) = println (
      "[FAIL] USDC balance: failed to create client: "
      <> display_client_error host.debug_duration e)
  query_balance panic = lift panic

  abbrev pub skipped_balance : Bool → String
  skipped_balance wallet_ok =
      "[--]  USDC balance: skipped ("
      <> ((if wallet_ok then "RPC unreachable" else "wallet not loaded") <> ")")

  unfoldable pub check_balance : Option Wallet → Bool → Bool → String → String → Command (Unit {0})
  check_balance wallet wallet_ok rpc_ok gateway_url rpc_url =
      if not wallet_ok || not rpc_ok then println (skipped_balance wallet_ok) else elim wallet [
        | none ↦ pure tt
        | some w ↦ query_balance (Client.new L host.http_built w (config_for gateway_url rpc_url))
      ]

  unfoldable pub run : WalletArgs → GatewayArgs → RpcArgs → Command (Unit {0})
  run wallet_args gateway_args rpc_args = with_http host.http_built (do
    let gateway_url = trim_slashes gateway_args.gateway
    wallet ← check_wallet p host wallet_args
    gateway_ok ← check_gateway p host gateway_url
    models_checked ← check_models p host gateway_url gateway_ok
    rpc_ok ← check_rpc p host rpc_args.rpc_url
    balance_checked ← check_balance wallet (is_some wallet) rpc_ok gateway_url rpc_args.rpc_url
    check_payment_flow p host gateway_url gateway_ok)
