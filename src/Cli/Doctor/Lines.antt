-- ===== src/Cli/Doctor/Lines.antt =====
-- What each line of `doctor` of crates/solvela-client-cli/src/commands/doctor.rs says.
use text.Mathlib.TextLemmas.{append_assoc}
use solvela_client.Base.{
  ◌<>◌, [], String, Bool, true, false, Option, none, some, ◌≡◌, nat_eq, string_eq, ◌<>◌,
}
use solvela_client.Base.Outcome.{Result, ok, Outcome, done, fail, panic}
use solvela_client.Error.{NetError, ClientError}
use solvela_client.Wallet.{Wallet, address}
use solvela_client.KeyFile.{WalletArgs, load_wallet}
use solvela_client.Net.{HttpRequest, HttpResponse, is_success}
use solvela_client.Platform.{Platform}
use solvela_client.Floats.{Floats}
use solvela_client.Cache.{LruCache}
use solvela_client.Client.Funds.{usdc_balance_of}
use solvela_client.Cli.{Host, Shell, config_for}
use solvela_client.Handshake.{post}
use solvela_client.Cli.Doctor.{get, doctor_probe, rpc}
use solvela_client.Cli.Doctor.Effects.{Prints, Then, reply}
use solvela_client.Error.{NetError}
use solvela_client.Net.{HttpResponse}
use solvela_client.Base.{List, ◌⊎◌}

-- The servers have answered with a status of success.
abbrev pub Reaches : Result NetError HttpResponse → Type 0
Reaches r = (resp : HttpResponse) × (r ≡ ok resp) × (is_success resp.status ≡ true)

abbrev pub Begins : String → String → Type 0
Begins start line = (rest : String) × (line ≡ start <> rest)

abbrev pub health : String → HttpRequest
health gateway_url = get (gateway_url <> "/health")

abbrev pub slot_request : String → HttpRequest
slot_request rpc_url = record {
  method = "POST";
  url = rpc_url;
  headers = [];
  payload = rpc "getSlot" [];
}

abbrev pub probe_request : String → HttpRequest
probe_request gateway_url = post (gateway_url <> "/v1/chat/completions") [] doctor_probe

pub begins : (start more rest : String) → Begins start ((start <> more) <> rest)
begins start more rest = (more <> rest, append_assoc start more rest)

-- The gateway is reported as reachable exactly if it is.
abbrev pub GatewayLine : String → Result NetError HttpResponse → Bool → String → Type 0
GatewayLine gateway_url r true line =
    Reaches r × (line ≡ "[ok]  Gateway reachable: " <> gateway_url)
GatewayLine gateway_url r false line = ¬ Reaches r × Begins "[FAIL] Gateway " line

-- The models are listed only from a well-formed answer, and skipped without the gateway.
abbrev pub ModelsLine : Platform → Bool → Result NetError HttpResponse → String → Type 0
ModelsLine p true r line =
    (Reaches r × Begins "[ok]  Models available: " line) ⊎ Begins "[FAIL] Models" line
ModelsLine p false r line = line ≡ "[--]  Models: skipped (gateway unreachable)"

-- The RPC server counts as reachable only with a status of success.
abbrev pub RpcLine : Result NetError HttpResponse → Bool → String → Type 0
RpcLine r true line =
    Reaches r
    × (Begins "[ok]  Solana RPC reachable: slot " line
        ⊎ (line ≡ "[WARN] Solana RPC reachable but unexpected response"))
RpcLine r false line = Begins "[FAIL] Solana RPC " line

-- The gateway has answered the probe with the status 402 or with one of success.
abbrev pub Serves : Result NetError HttpResponse → Type 0
Serves r =
    (resp : HttpResponse) × (r ≡ ok resp) × ((resp.status ≡ 402) ⊎ (is_success resp.status ≡ true))

abbrev pub FlowLine : Bool → Result NetError HttpResponse → String → Type 0
FlowLine true r line =
    (Serves r × Begins "[ok]  Payment flow: " line) ⊎ Begins "[FAIL] Payment flow: " line
FlowLine false r line = line ≡ "[--]  Payment flow: skipped (gateway unreachable)"

module _ (p : Platform) (host : Host) where
  -- The wallet is reported as loaded exactly if it is.
  abbrev pub WalletLine : WalletArgs → Shell → Option Wallet → String → Type 0
  WalletLine args s (some w) line =
      (load_wallet p.crypto host.os s.files args ≡ done w)
      × (line ≡ "[ok]  Wallet loaded: " <> address p.crypto w)
  WalletLine args s none line =
      (e : String) × (load_wallet p.crypto host.os s.files args ≡ fail e)
      × (line ≡ "[FAIL] Wallet: " <> e)

module _ (F : Floats) (L : LruCache) (p : Platform) (host : Host) where
  -- A balance that was read is printed, with a warning if it is below 0.01; else the error is.
  abbrev pub AmountLine : Outcome ClientError F.F64 → String → Type 0
  AmountLine (done x) line =
      ((F.lt x F.hundredth ≡ true)
        × (line
            ≡ "[WARN] USDC balance: "
              <> (F.fixed6 x <> " (low balance, may not be enough for requests)")))
      ⊎ ((F.lt x F.hundredth ≡ false) × (line ≡ "[ok]  USDC balance: " <> F.fixed6 x))
  AmountLine (fail e) line = Begins "[FAIL] USDC balance: " line
  AmountLine panic line = ⊥

  -- The balance of the wallet that was loaded, if the RPC server was reached.
  abbrev pub BalanceLine : String → String → Option Wallet → Bool → Shell → String → Type 0
  BalanceLine gateway_url rpc_url (some w) true s line =
      AmountLine
        (usdc_balance_of F p (config_for gateway_url rpc_url) (address p.crypto w) s.world).0 line
  BalanceLine gateway_url rpc_url (some w) false s line =
      line ≡ "[--]  USDC balance: skipped (RPC unreachable)"
  BalanceLine gateway_url rpc_url none rpc_ok s line =
      line ≡ "[--]  USDC balance: skipped (wallet not loaded)"

  -- The six lines, each from the shell in which its check starts.
  abbrev pub Report : WalletArgs → String → String → Shell → Unit {0} → List String → Type 0
  Report args gateway rpc_url = Then 0 (Prints (WalletLine p host args)) (λ wallet.
      Then {A = Bool} 1
        (Prints (λ s reached line. GatewayLine gateway (reply p (health gateway) s) reached line))
        (λ reached.
          Then {A = Unit {0}} 1
            (Prints
              (λ s _ line. ModelsLine p reached (reply p (get (gateway <> "/v1/models")) s) line))
            (λ _.
              Then {A = Bool} 1
                (Prints (λ s rpc_ok line. RpcLine (reply p (slot_request rpc_url) s) rpc_ok line))
                (λ rpc_ok.
                  Then {A = Unit {0}} 1
                    (Prints (λ s _ line. BalanceLine gateway rpc_url wallet rpc_ok s line))
                    (λ _.
                      Prints
                        (λ s _ line. FlowLine reached (reply p (probe_request gateway) s) line))))))
