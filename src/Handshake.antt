-- ===== src/Handshake.antt =====
-- crates/solvela-client/src/client.rs: the payment handshake. The methods of `SolvelaClient` that
-- only read the wallet and the configuration, and act on the world.
pub mod Accepts
pub mod Frames
pub mod Safety
pub mod Flows
pub mod Budget
pub mod Spending
pub mod Completes
pub mod Requests
pub mod Total
use solvela_client.Base.{
  ℕ, zero, suc, ◌+◌, String, ◌<>◌, Bool, true, false, ◌&&◌, Option, none, some, List, [], ◌∷◌, find,
  ltb, min, ◌==◌, nat_eq, string_eq, if◌then◌else◌,
}
use solvela_client.Base.Outcome.{Result, ok, err, Outcome, done, fail, try, ok_or, map_fail}
use solvela_client.Base.Exec.{Exec, pure, raise, lift, map_fail_exec, ◌>>=◌}
use solvela_client.Text.Digits.{parse_u64, display_parse_int_error, u64_max, saturating_add}
use solvela_client.Protocol.{Protocol, ChatRequest, ChatResponse, PaymentAccept, PaymentRequired}
use solvela_client.Error.{NetError, ClientError}
use solvela_client.Config.{ClientConfig}
use solvela_client.Wallet.{Wallet}
use solvela_client.Net.{HttpRequest, HttpResponse, Payload, World, chat, send}
use solvela_client.Payment.{build_payment_payload, encode_payment_header}
use solvela_client.Signer.{sign_exact_payment}
use solvela_client.Platform.{Platform}
use solvela_client.Quality.{is_degraded}

-- The test of `pick_scheme` on one offer.
unfoldable pub is_supported : Protocol → PaymentAccept → Bool
is_supported protocol a =
    a.scheme == "exact" && (a.network == protocol.solana_network && a.asset == protocol.usdc_mint)

unfoldable pub pick_scheme : Protocol → List PaymentAccept → Option PaymentAccept
pick_scheme protocol accepts = find (is_supported protocol) accepts

unfoldable pub check_recipient : Option String → PaymentAccept → Outcome ClientError (Unit {0})
check_recipient none accept = done tt
check_recipient (some expected) accept =
    if accept.pay_to == expected
    then done tt
    else fail (ClientError.recipient_mismatch expected accept.pay_to)

unfoldable pub parse_amount : PaymentAccept → Outcome ClientError ℕ
parse_amount accept =
    try (λ e. ClientError.parse_error ("invalid amount: " <> display_parse_int_error e))
      (parse_u64 accept.amount)

unfoldable pub check_amount : Option ℕ → ℕ → Outcome ClientError (Unit {0})
check_amount none amount_atomic = done tt
check_amount (some max) amount_atomic =
    if ltb max amount_atomic
    then fail (ClientError.amount_exceeds_max amount_atomic max)
    else done tt

-- A POST of a chat request.
abbrev pub post : String → List (String × String) → ChatRequest → HttpRequest
post url headers req = record { method = "POST"; url = url; headers = headers; payload = chat req }

abbrev pub payment_signature : String
payment_signature = "PAYMENT-SIGNATURE"

-- `text().await?`, and `text().await.unwrap_or_default()`
abbrev pub text : HttpResponse → Outcome ClientError String
text resp = try ClientError.network resp.body

abbrev pub text_or_default : HttpResponse → String
text_or_default resp = elim resp.body [ err e ↦ "" | ok body ↦ body ]

module _ (p : Platform) (wallet : Wallet) (config : ClientConfig) where
  unfoldable pub sign_payment_for_402_with_amount :
      PaymentRequired → Exec World ClientError (String × ℕ)
  sign_payment_for_402_with_amount payment_required = do
    accept ←
        lift
          (ok_or ClientError.no_compatible_scheme (pick_scheme p.protocol payment_required.accepts))
    recipient_ok ← lift (check_recipient config.expected_recipient accept)
    amount_atomic ← lift (parse_amount accept)
    amount_ok ← lift (check_amount config.max_payment_amount amount_atomic)
    signed_tx ← map_fail_exec ClientError.signing (
        sign_exact_payment p.protocol p.crypto p.solana p.net wallet config.rpc_url accept.pay_to
          amount_atomic)
    header ← lift (
        encode_payment_header p.solana
          (build_payment_payload p.protocol payment_required.resource accept signed_tx))
    pure (header, amount_atomic)

  unfoldable pub sign_payment_for_402 : PaymentRequired → Exec World ClientError String
  sign_payment_for_402 payment_required = do
    (header, amount) ← sign_payment_for_402_with_amount payment_required
    pure header

  abbrev pub parse_chat : String → Outcome ClientError ChatResponse
  parse_chat body = try ClientError.parse_error (p.serde.chat_response body)

  abbrev pub parse_402 : String → Outcome ClientError PaymentRequired
  parse_402 body =
      try (λ e. ClientError.parse_error ("invalid 402 body: " <> e)) (p.serde.payment_required body)

  -- What the answer to a paid request is turned into.
  unfoldable pub read_paid : ℕ → ℕ → String → Outcome ClientError (ChatResponse × ℕ)
  unfolding nat_eq
  read_paid amount_atomic status body =
      if status == 200
      then elim (p.serde.chat_response body) [
        | err e ↦ fail (ClientError.parse_error e)
        | ok parsed ↦ done (parsed, amount_atomic)
      ]
      else if status == 402
      then fail (ClientError.payment_rejected body)
      else fail (ClientError.gateway status body)

  -- The paid request and its answer.
  unfoldable pub resend :
      String → ChatRequest → String × ℕ → Exec World ClientError (ChatResponse × ℕ)
  resend url req (payment_header, amount_atomic) = do
    resp ← send ClientError.network p.net (post url ((payment_signature, payment_header) ∷ []) req)
    body ← lift (text resp)
    lift (read_paid amount_atomic resp.status body)

  unfoldable pub pay_and_resend_with_amount :
      String → ChatRequest → PaymentRequired → Exec World ClientError (ChatResponse × ℕ)
  pay_and_resend_with_amount url req payment_required = do
    signed ← sign_payment_for_402_with_amount payment_required
    resend url req signed

  -- The match on the status of a probe: 200 is the answer, 402 asks for a payment.
  unfoldable pub answer_probe :
      String → ChatRequest → HttpResponse → Exec World ClientError (ChatResponse × ℕ)
  unfolding nat_eq
  answer_probe url req probe_resp =
      if probe_resp.status == 200
      then (do body ← lift (text probe_resp); parsed ← lift (parse_chat body); pure (parsed, 0))
      else if probe_resp.status == 402
      then (do
        body ← lift (text probe_resp)
        payment_required ← lift (parse_402 body)
        pay_and_resend_with_amount url req payment_required)
      else raise (ClientError.gateway probe_resp.status (text_or_default probe_resp))

  unfoldable pub send_chat_request :
      String → ChatRequest → Exec World ClientError (ChatResponse × ℕ)
  send_chat_request url req = do
    probe_resp ← send ClientError.network p.net (post url [] req)
    answer_probe url req probe_resp

  unfoldable pub check_budget : ℕ → Outcome ClientError (Unit {0})
  check_budget total = elim config.max_payment_amount [
    | none ↦ done tt
    | some max ↦ if ltb max total then fail (ClientError.budget_exceeded total max) else done tt
  ]

  -- The match on the status of a retry's probe, with the total paid so far.
  unfoldable pub answer_retry :
      String → ChatRequest → ℕ → HttpResponse → Exec World ClientError (ChatResponse × ℕ)
  unfolding nat_eq
  answer_retry url req total probe_resp =
      if probe_resp.status == 200
      then (do body ← lift (text probe_resp); parsed ← lift (parse_chat body); pure (parsed, total))
      else if probe_resp.status == 402
      then (do
        body ← lift (text probe_resp)
        payment_required ← lift (parse_402 body)
        (paid_resp, paid_amount) ← pay_and_resend_with_amount url req payment_required
        let total' = saturating_add total paid_amount
        within ← lift (check_budget total')
        pure (paid_resp, total'))
      else raise (ClientError.gateway probe_resp.status (text_or_default probe_resp))

  -- The loop `for attempt in 0..max_quality_retries`, by the attempts that are left.
  unfoldable pub retry_loop :
      ℕ → String → ChatRequest → ChatResponse → ℕ → Exec World ClientError ChatResponse
  retry_loop zero url req response total = pure response
  retry_loop (suc attempts) url req response total = elim (is_degraded p.unicode response) [
    | none ↦ pure response
    | some reason ↦ do
      probe_resp ←
          send ClientError.network p.net
            (post url (("X-Solvela-Retry-Reason", "degraded") ∷ []) req)
      (next, total') ← answer_retry url req total probe_resp
      retry_loop attempts url req next total'
  ]

  unfoldable pub retry_if_degraded :
      String → ChatRequest → ChatResponse → ℕ → Exec World ClientError ChatResponse
  retry_if_degraded url req initial_response initial_paid_atomic =
      retry_loop config.max_quality_retries url req initial_response initial_paid_atomic
