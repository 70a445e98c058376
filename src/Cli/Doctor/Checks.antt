-- ===== src/Cli/Doctor/Checks.antt =====
-- What `doctor` of crates/solvela-client-cli/src/commands/doctor.rs promises.
use solvela_client.Base.{
  String, Bool, true, false, Option, none, some, is_some, ◌≡◌, refl, inl, inr, arith, nat_eq,
  string_eq, ◌∙◌, ◌≢◌,
}
use solvela_client.Base.Outcome.{Outcome, done, fail, panic}
use solvela_client.Error.{ClientError}
use solvela_client.Wallet.{Wallet, address}
use solvela_client.KeyFile.{WalletArgs}
use solvela_client.Platform.{Platform}
use solvela_client.Floats.{Floats}
use solvela_client.Cache.{LruCache}
use solvela_client.Client.{new}
use solvela_client.Client.Unpaid.{Unpaid, usdc_balance_of-Unpaid, usdc_balance_of-NoPanic}
use solvela_client.Client.Funds.{usdc_balance, usdc_balance_of}
use solvela_client.Cli.{GatewayArgs, RpcArgs, Host, Shell, println, config_for}
use solvela_client.Cli.Doctor.{
  check_wallet, check_gateway, check_models, check_rpc, report_balance, query_balance,
  check_balance, run, skipped_balance,
}
use solvela_client.Signer.Total.{IsTotal}
use solvela_client.Cli.Doctor.Effects.{
  IsChecked, Checks, Prints, Checks-bind, println-Checks, if-Checks, more-Checks, with_http-Checks,
}
use solvela_client.Cli.Doctor.Lines.{AmountLine, BalanceLine, Report}
use solvela_client.Net.{World}
use solvela_client.Config.{trim_slashes}
use solvela_client.Cli.Doctor.Steps.{
  check_wallet-Checks, check_gateway-Checks, check_models-Checks, check_rpc-Checks,
  check_payment_flow-Checks,
}

module _ (F : Floats) (L : LruCache) (p : Platform) (host : Host) (total : IsTotal p.solana) where
  report_balance-Checks :
      (o : Outcome ClientError F.F64)
      → o ≢ panic
      → Checks (Prints (λ s _ line. AmountLine F L p host o line)) 0 (report_balance F L p host o)
  unfolding report_balance
  report_balance-Checks (done x) steady =
      if-Checks (Prints (λ s _ line. AmountLine F L p host (done x) line)) 0 (F.lt x F.hundredth) _
        _ (λ low. println-Checks (λ s _. AmountLine F L p host (done x)) _ (λ s. inl (low, refl)))
        (λ high. println-Checks (λ s _. AmountLine F L p host (done x)) _ (λ s. inr (high, refl)))
  report_balance-Checks (fail e) steady =
      println-Checks (λ s _. AmountLine F L p host (fail e)) _ (λ s. (_, refl))
  report_balance-Checks panic steady = absurd (steady refl)

  query_balance-Checks :
      (gateway_url rpc_url : String) (w : Wallet)
      → host.http_built ≡ none
      → Checks
          (Prints (λ s _ line. BalanceLine F L p host gateway_url rpc_url (some w) true s line))
          1
          (query_balance F L p host (new L host.http_built w (config_for gateway_url rpc_url)))
  unfolding query_balance usdc_balance new
  query_balance-Checks gateway_url rpc_url w built s = go host.http_built built
    where
      asked : Outcome ClientError F.F64 × World
      asked = usdc_balance_of F p (config_for gateway_url rpc_url) (address p.crypto w) s.world

      quiet : Unpaid s.world asked.1
      quiet =
          usdc_balance_of-Unpaid F p (config_for gateway_url rpc_url) (address p.crypto w) s.world

      later :
          IsChecked
            (Prints (λ s _ line. AmountLine F L p host asked.0 line))
            0
            (record s { world = asked.1 })
            (report_balance F L p host asked.0 (record s { world = asked.1 })).0
            (report_balance F L p host asked.0 (record s { world = asked.1 })).1
      later =
          report_balance-Checks asked.0
            (usdc_balance_of-NoPanic F p total (config_for gateway_url rpc_url) (address p.crypto w)
              s.world)
            (record s { world = asked.1 })

      go :
          (failed : Option String)
          → failed ≡ none
          → let client = new L failed w (config_for gateway_url rpc_url) in
            IsChecked
              (Prints (λ s _ line. BalanceLine F L p host gateway_url rpc_url (some w) true s line))
              1
              s
              (query_balance F L p host client s).0
              (query_balance F L p host client s).1
      go (some e) same = absurd (cc same)
      go none same = record {
        signed = later.signed ∙ quiet.signed;
        files = later.files;
        sent = let more = later.sent in let few = quiet.few in omega (arith, more, few);
        quiet = λ no_call. absurd (cc no_call);
        returned = later.returned;
      }

  check_balance-Checks :
      (wallet : Option Wallet) (rpc_ok : Bool) (gateway_url rpc_url : String)
      → host.http_built ≡ none
      → Checks
          (Prints (λ s _ line. BalanceLine F L p host gateway_url rpc_url wallet rpc_ok s line))
          1
          (check_balance F L p host wallet (is_some wallet) rpc_ok gateway_url rpc_url)
  unfolding check_balance
  check_balance-Checks none rpc_ok gateway_url rpc_url built =
      more-Checks (Prints (λ s _ line. line ≡ "[--]  USDC balance: skipped (wallet not loaded)")) _
        0 1 (println (skipped_balance F L p host false)) (omega arith) (λ s a lines h. h)
        (println-Checks _ _ (λ s. refl))
  check_balance-Checks (some w) false gateway_url rpc_url built =
      more-Checks (Prints (λ s _ line. line ≡ "[--]  USDC balance: skipped (RPC unreachable)")) _ 0
        1 (println (skipped_balance F L p host true)) (omega arith) (λ s a lines h. h)
        (println-Checks _ _ (λ s. refl))
  check_balance-Checks (some w) true gateway_url rpc_url built =
      query_balance-Checks gateway_url rpc_url w built

  -- If the HTTP client can be built, and the crates behave as for a chat that does not panic (the
  -- address of the token program is a key, payloads can be written, transactions signed): whatever
  -- the servers answer and whatever the key file holds, `doctor` returns, signs nothing, changes no
  -- file, and sends at most 55 requests, the redirects that are followed included. It prints six
  -- lines, one for each check: the wallet is reported as loaded exactly if it is, and the gateway
  -- as reachable exactly if it answers the health check with success; without the gateway the
  -- models and the payment flow are skipped, and without the wallet or the RPC server the balance;
  -- a line `[ok]` on the models or the RPC server is printed only after an answer of success, on
  -- the payment flow only after the status 402 or one of success, and on the balance only with the
  -- balance that was read, if it is not below 0.01.
  pub run-Checks :
      (args : WalletArgs) (gateway : GatewayArgs) (rpc : RpcArgs) (s : Shell)
      → host.http_built ≡ none
      → let after = run F L p host args gateway rpc s in
        IsChecked
          (Report F L p host args (trim_slashes gateway.gateway) rpc.rpc_url)
          5
          s
          after.0
          after.1
  unfolding run
  run-Checks args gateway rpc s built =
      let url = trim_slashes gateway.gateway in
      with_http-Checks host.http_built _ 5 _ built
        (Checks-bind 0 5 _ _ (check_wallet p host args) _ (check_wallet-Checks p host args)
          (λ wallet.
            Checks-bind 1 4 _ _ (check_gateway p host url) _ (check_gateway-Checks p host url)
              (λ reached.
                Checks-bind 1 3 _ _ (check_models p host url reached) _
                  (check_models-Checks p host url reached)
                  (λ models_checked.
                    Checks-bind 1 2 _ _ (check_rpc p host rpc.rpc_url) _
                      (check_rpc-Checks p host rpc.rpc_url)
                      (λ rpc_ok.
                        Checks-bind 1 1 _ _
                          (check_balance F L p host wallet (is_some wallet) rpc_ok url rpc.rpc_url)
                          _ (check_balance-Checks wallet rpc_ok url rpc.rpc_url built)
                          (λ balance_checked. check_payment_flow-Checks p host url reached))))))
        s
