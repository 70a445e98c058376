-- ===== src/Cli/Doctor/Steps.antt =====
-- What each check of crates/solvela-client-cli/src/commands/doctor.rs prints, but for the balance's.
use solvela_client.Base.{
  ◌<>◌, ℕ, String, Bool, true, false, Option, none, some, ◌≡◌, refl, inl, inr, arith, nat_eq,
  string_eq, ◌<>◌, ◌≢◌,
}
use solvela_client.Base.Outcome.{Result, ok, err, Outcome, done, fail, panic}
use solvela_client.Error.{NetError}
use solvela_client.Wallet.{Wallet, address}
use solvela_client.KeyFile.{WalletArgs, load_wallet}
use solvela_client.Net.{HttpResponse, is_success}
use solvela_client.Platform.{Platform}
use solvela_client.Cli.{Host, Shell, println, SlotReply}
use solvela_client.Cli.Doctor.{
  get, models_line, flow_line, report, check_wallet, read_gateway, check_gateway, check_models,
  read_slot, check_rpc, check_payment_flow, slot_of, report_slot, text_or_default,
}
use solvela_client.KeyFile.Laws.{load_wallet_ne_panic}
use solvela_client.Cli.Doctor.Effects.{
  IsChecked, Checks, Prints, reply, println-Checks, report-Checks, if-Checks, more-Checks,
  call-Checks, report-IsChecked,
}
use solvela_client.Cli.Doctor.Lines.{
  health, slot_request, probe_request, GatewayLine, ModelsLine, RpcLine, FlowLine, WalletLine,
  begins,
}
use solvela_client.Error.{NetError}
use solvela_client.Net.{HttpResponse}
use solvela_client.Base.{Bool-cases, ◌==◌}
use solvela_client.Base.Outcome.{Result-cases}

ok-injective : (a b : HttpResponse) → ◌≡◌ {A = Result NetError HttpResponse} (ok a) (ok b) → a ≡ b
ok-injective a b h = cc h

module _ (p : Platform) (host : Host) where
  pub check_wallet-Checks :
      (args : WalletArgs) → Checks (Prints (WalletLine p host args)) 0 (check_wallet p host args)
  unfolding check_wallet
  check_wallet-Checks args s =
      go (load_wallet p.crypto host.os s.files args) refl
        (load_wallet_ne_panic p.crypto host.os s.files args)
    where
      go :
          (o : Outcome String Wallet)
          → load_wallet p.crypto host.os s.files args ≡ o
          → o ≢ panic
          → let r : Outcome String (Option Wallet) × Shell = elim o [
            | done w ↦ report ("[ok]  Wallet loaded: " <> address p.crypto w) (some w) s
            | fail e ↦ report ("[FAIL] Wallet: " <> e) none s
            | panic ↦ (panic, s)
          ] in
            IsChecked {A = Option Wallet} (Prints (WalletLine p host args)) 0 s r.0 r.1
      go (done w) same steady = report-IsChecked (WalletLine p host args) _ (some w) s (same, refl)
      go (fail e) same steady = report-IsChecked (WalletLine p host args) _ none s (e, same, refl)
      go panic same steady = absurd (steady refl)

  read_gateway-Checks :
      (url : String) (r : Result NetError HttpResponse)
      → Checks (Prints (λ s a line. GatewayLine url r a line)) 0 (read_gateway p host url r)
  unfolding read_gateway
  read_gateway-Checks url (err e) =
      report-Checks (λ s. GatewayLine url (err e)) _ false
        (λ s. (λ (resp, same, fine). cc same, begins "[FAIL] Gateway " "unreachable: " e.message))
  read_gateway-Checks url (ok resp) =
      if-Checks (Prints (λ s. GatewayLine url (ok resp))) 0 (is_success resp.status) _ _
        (λ fine.
          report-Checks (λ s. GatewayLine url (ok resp)) _ true (λ s. ((resp, refl, fine), refl)))
        (λ refused.
          report-Checks (λ s. GatewayLine url (ok resp)) _ false
            (λ s. (
              λ (resp', same, fine). cc (rw (ok-injective resp resp' same) at refused, fine),
              begins "[FAIL] Gateway " "returned HTTP "
                  (p.solana.display_status resp.status <> (": " <> url)),
            )))

  pub check_gateway-Checks :
      (url : String)
      → Checks
          (Prints (λ s a line. GatewayLine url (reply p (health url) s) a line))
          1
          (check_gateway p host url)
  unfolding check_gateway
  check_gateway-Checks url =
      call-Checks p (GatewayLine url) (health url) (read_gateway p host url)
        (read_gateway-Checks url)

  models_line-Begins :
      (r : Result NetError HttpResponse) → ModelsLine p true r (models_line p host r)
  unfolding models_line
  models_line-Begins (err e) = inr (begins "[FAIL] Models" ": " e.message)
  models_line-Begins (ok resp) = elim (Bool-cases (is_success resp.status)) [
    | inr refused ↦ rw refused (
        inr
          (begins "[FAIL] Models" " endpoint returned HTTP " (p.solana.display_status resp.status)))
    | inl fine ↦ elim (Result-cases (p.serde.models (text_or_default resp))) [
      | inl (listed, read) ↦ rw (fine, read) (inl ((resp, refl, fine), (_, refl)))
      | inr (e, failed) ↦
          rw (fine, failed) (inr (begins "[FAIL] Models" ": failed to parse response: " e))
    ]
  ]

  pub check_models-Checks :
      (url : String) (reached : Bool)
      → Checks
          (Prints (λ s a line. ModelsLine p reached (reply p (get (url <> "/v1/models")) s) line))
          1
          (check_models p host url reached)
  unfolding check_models
  check_models-Checks url true =
      call-Checks p (λ r _ line. ModelsLine p true r line) (get (url <> "/v1/models"))
        (λ answer. println (models_line p host answer))
        (λ answer.
          println-Checks (λ s _ line. ModelsLine p true answer line) _
            (λ s. models_line-Begins answer))
  check_models-Checks url false =
      more-Checks
        (Prints (λ s a line. ModelsLine p false (reply p (get (url <> "/v1/models")) s) line)) _ 0 1
        (println "[--]  Models: skipped (gateway unreachable)") (omega arith) (λ s a lines h. h)
        (println-Checks _ _ (λ s. refl))

  report_slot-Checks :
      (resp : HttpResponse) (json : SlotReply) (slot : Option ℕ)
      → is_success resp.status ≡ true
      → Checks (Prints (λ s a line. RpcLine (ok resp) a line)) 0 (report_slot p host json slot)
  report_slot-Checks resp json (some slot) fine =
      report-Checks (λ s. RpcLine (ok resp)) _ true (λ s. ((resp, refl, fine), inl (_, refl)))
  report_slot-Checks resp json none fine =
      if-Checks (Prints (λ s. RpcLine (ok resp))) 0 json.has_error _ _
        (λ failed.
          report-Checks (λ s. RpcLine (ok resp)) _ false
            (λ s. begins "[FAIL] Solana RPC " "error: " json.text))
        (λ odd.
          report-Checks (λ s. RpcLine (ok resp))
            "[WARN] Solana RPC reachable but unexpected response" true
            (λ s. ((resp, refl, fine), inr refl)))

  read_slot-Checks :
      (r : Result NetError HttpResponse)
      → Checks (Prints (λ s a line. RpcLine r a line)) 0 (read_slot p host r)
  unfolding read_slot
  read_slot-Checks (err e) =
      report-Checks (λ s. RpcLine (err e)) _ false
        (λ s. begins "[FAIL] Solana RPC " "unreachable: " e.message)
  read_slot-Checks (ok resp) =
      if-Checks (Prints (λ s. RpcLine (ok resp))) 0 (is_success resp.status) _ _
        (λ fine. report_slot-Checks resp (slot_of host resp) (slot_of host resp).slot fine)
        (λ refused.
          report-Checks (λ s. RpcLine (ok resp)) _ false
            (λ s.
              begins "[FAIL] Solana RPC " "returned HTTP " (p.solana.display_status resp.status)))

  pub check_rpc-Checks :
      (url : String)
      → Checks
          (Prints (λ s a line. RpcLine (reply p (slot_request url) s) a line))
          1
          (check_rpc p host url)
  unfolding check_rpc
  check_rpc-Checks url =
      call-Checks p RpcLine (slot_request url) (read_slot p host) read_slot-Checks

  flow_line-Begins : (r : Result NetError HttpResponse) → FlowLine true r (flow_line p host r)
  unfolding flow_line
  flow_line-Begins (err e) = inr (e.message, refl)
  flow_line-Begins (ok resp) = elim (Bool-cases (resp.status == 402)) [
    | inl asked ↦ elim (Result-cases (p.serde.payment_required (text_or_default resp))) [
      | inl (pr, read) ↦
          rw (asked, read)
            (inl
              ((resp, refl, inl (ground arith)), begins "[ok]  Payment flow: " "402 received, " _))
      | inr (e, failed) ↦
          rw (asked, failed)
            (inr (begins "[FAIL] Payment flow: " "402 received but invalid body: " e))
    ]
    | inr other ↦ elim (Bool-cases (is_success resp.status)) [
      | inl fine ↦
          rw (other, fine)
            (inl ((resp, refl, inr fine), ("model returned 200 (free/cached)", refl)))
      | inr refused ↦
          rw (other, refused)
            (inr (
              begins "[FAIL] Payment flow: " "unexpected HTTP "
                (p.solana.display_status resp.status)))
    ]
  ]

  pub check_payment_flow-Checks :
      (url : String) (reached : Bool)
      → Checks
          (Prints (λ s a line. FlowLine reached (reply p (probe_request url) s) line))
          1
          (check_payment_flow p host url reached)
  unfolding check_payment_flow
  check_payment_flow-Checks url true =
      call-Checks p (λ r _ line. FlowLine true r line) (probe_request url)
        (λ answer. println (flow_line p host answer))
        (λ answer.
          println-Checks (λ s _ line. FlowLine true answer line) _ (λ s. flow_line-Begins answer))
  check_payment_flow-Checks url false =
      more-Checks (Prints (λ s a line. FlowLine false (reply p (probe_request url) s) line)) _ 0 1
        (println "[--]  Payment flow: skipped (gateway unreachable)") (omega arith)
        (λ s a lines h. h) (println-Checks _ _ (λ s. refl))
