-- ===== src/Balance.antt =====
-- crates/solvela-client/src/balance.rs: the balance monitor. Its loop does not end; what is modelled
-- is what it has done after some number of ticks, where any time may pass before a tick. The
-- callback is known by the balances with which it has been called, in their order.
pub mod Polls
pub mod Edges
use solvela_client.Base.{
  ℕ, ◌+◌, String, ◌<>◌, Bool, true, false, not, ◌&&◌, Option, none, some, List, [], ◌∷◌,
  if◌then◌else◌, unwrap_or, ◌++◌,
}
use solvela_client.Base.Outcome.{Result, ok, err, Outcome, done, fail, panic, try, expect, ◌>>=◌}
use solvela_client.Text.Digits.{to_decimal}
use solvela_client.Error.{NetError}
use solvela_client.Config.{from_secs}
use solvela_client.Wallet.{Bytes}
use solvela_client.Net.{HttpRequest, HttpResponse, World, rpc, is_success, exchange}
use solvela_client.Payment.{associated_token_address, parsed}
use solvela_client.Platform.{Platform}
use solvela_client.Floats.{Floats, BalanceReply}

pub data BalanceError : Type 0 where
  rpc_request : String → BalanceError
  http_status : ℕ → BalanceError
  parse_response : String → BalanceError

unfoldable pub display_balance_error : BalanceError → String
unfolding to_decimal
display_balance_error (rpc_request m) = "RPC request failed: " <> m
display_balance_error (http_status n) = "RPC returned HTTP " <> to_decimal n
display_balance_error (parse_response m) = "failed to parse RPC response: " <> m

abbrev pub default_poll_interval : ℕ
default_poll_interval = from_secs 30

-- The JSON-RPC call of a poll.
abbrev pub balance_request : String → String → HttpRequest
balance_request rpc_url account = record {
  method = "POST";
  url = rpc_url;
  headers = [];
  payload = rpc "getTokenAccountBalance" (account ∷ []);
}

module _ (F : Floats) where
  abbrev pub default_low_balance_threshold : F.F64
  default_low_balance_threshold = F.tenth

  -- `on_low_balance` is whether a callback is set. The shared balance is part of the state.
  pub record BalanceMonitor : Type 0 where
    pub rpc_url : String
    pub wallet_address : String
    pub poll_interval : ℕ
    pub low_balance_threshold : F.F64
    pub on_low_balance : Bool

  unfoldable pub new : String → String → BalanceMonitor
  new rpc_url wallet_address = record {
    rpc_url = rpc_url;
    wallet_address = wallet_address;
    poll_interval = default_poll_interval;
    low_balance_threshold = default_low_balance_threshold;
    on_low_balance = false;
  }

  -- The three setters.
  pub data MonitorSetting : Type 0 where
    poll_interval : ℕ → MonitorSetting
    low_balance_threshold : F.F64 → MonitorSetting
    on_low_balance : MonitorSetting

  unfoldable pub set : BalanceMonitor → MonitorSetting → BalanceMonitor
  set m (MonitorSetting.poll_interval interval) = record m { poll_interval = interval }
  set m (MonitorSetting.low_balance_threshold threshold) = record m {
    low_balance_threshold = threshold;
  }
  set m MonitorSetting.on_low_balance = record m { on_low_balance = true }

  -- What the answer says: an account that is not found holds nothing.
  abbrev pub amount_of : BalanceReply F.F64 → F.F64
  amount_of json = if json.has_error then F.zero else unwrap_or json.ui_amount F.zero

  unfoldable pub read_balance : Result NetError HttpResponse → Result BalanceError F.F64
  read_balance (err e) = err (rpc_request e.message)
  read_balance (ok resp) =
      if is_success resp.status
      then elim (parsed F.balance_reply resp) [
        | err e ↦ err (parse_response e)
        | ok json ↦ ok (amount_of json)
      ]
      else err (http_status resp.status)

  unfoldable pub fetch_balance :
      Platform → BalanceMonitor → Bytes → World → Result BalanceError F.F64 × World
  unfolding exchange read_balance
  fetch_balance p m ata w =
      let sent = exchange p.net (balance_request m.rpc_url (p.solana.display_pubkey ata)) w in
      (read_balance sent.0, sent.1)

  -- What the loop keeps from one round to the next, with the shared balance and the callback's log.
  pub record Watch : Type 0 where
    pub balance_state : ℕ
    pub was_low : Bool
    pub calls : List F.F64

  -- What a round makes of the poll's result.
  unfoldable pub observe : BalanceMonitor → Watch → Result BalanceError F.F64 → Watch
  observe m s (err e) = s
  observe m s (ok ui_amount) =
      let is_low = F.lt ui_amount m.low_balance_threshold in
      record {
        balance_state = F.to_u64 (F.mul ui_amount F.million);
        was_low = is_low;
        calls =
            if is_low && not s.was_low && m.on_low_balance
            then s.calls ++ (ui_amount ∷ [])
            else s.calls;
      }

  -- One round of the loop; `wait` is the time until the tick.
  unfoldable pub poll : Platform → BalanceMonitor → Bytes → ℕ → Watch × World → Watch × World
  unfolding fetch_balance observe
  poll p m ata wait (s, w) =
      let fetched = fetch_balance p m ata (record w { clock = w.clock + wait }) in
      (observe m s fetched.0, fetched.1)

  unfoldable pub polls : Platform → BalanceMonitor → Bytes → List ℕ → Watch × World → Watch × World
  polls p m ata [] s = s
  polls p m ata (wait ∷ waits) s = polls p m ata waits (poll p m ata wait s)

  -- The account that is watched: an address that does not parse ends the monitor.
  unfoldable pub watched_account : Platform → BalanceMonitor → Outcome String Bytes
  unfolding associated_token_address
  watched_account p m = do
    owner ← try (λ e. e) (p.solana.parse_pubkey m.wallet_address)
    mint ← expect (p.solana.parse_pubkey p.protocol.usdc_mint)
    associated_token_address p.solana owner mint

  unfoldable pub run : Platform → BalanceMonitor → List ℕ → ℕ → World → Watch × World
  run p m waits balance_state w =
      let start : Watch = record { balance_state = balance_state; was_low = false; calls = [] } in
      elim (watched_account p m) [
        | done ata ↦ polls p m ata waits (start, w)
        | fail e ↦ (start, w)
        | panic ↦ (start, w)
      ]
