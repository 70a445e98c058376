-- ===== src/Handshake/Completes.antt =====
-- A chat request of crates/solvela-client/src/client.rs that goes well: probe, payment, answer.
use solvela_client.Base.{ℕ, ◌≤◌, String, [], ◌∷◌, Option, none, some, ◌≡◌, refl, arith, nat_eq}
use solvela_client.Base.Outcome.{ok, done}
use solvela_client.Text.Digits.{parse_u64}
use solvela_client.Protocol.{ChatRequest, ChatResponse, PaymentAccept, PaymentRequired}
use solvela_client.Config.{ClientConfig}
use solvela_client.Wallet.{Wallet}
use solvela_client.Net.{HttpResponse, World, send, exchange}
use solvela_client.Payment.{build_payment_payload, encode_payment_header}
use solvela_client.Platform.{Platform}
use solvela_client.Handshake.{
  post, payment_signature, pick_scheme, check_recipient, parse_amount, check_amount,
  sign_payment_for_402_with_amount, resend, read_paid, pay_and_resend_with_amount, answer_probe,
  send_chat_request,
}
use solvela_client.Handshake.Frames.{sign_exact}

check_recipient-done :
    (expected : Option String) (accept : PaymentAccept)
    → ((e : String) → expected ≡ some e → accept.pay_to ≡ e)
    → check_recipient expected accept ≡ done tt
unfolding check_recipient
check_recipient-done none accept h = refl
check_recipient-done (some e) accept h = ground (arith, h e refl)

check_amount-done :
    (cap : Option ℕ) (amount : ℕ)
    → ((max : ℕ) → cap ≡ some max → amount ≤ max)
    → check_amount cap amount ≡ done tt
unfolding check_amount
check_amount-done none amount h = refl
check_amount-done (some max) amount h = ground (arith, h max refl)

parse_amount-done :
    (accept : PaymentAccept) (amount : ℕ)
    → parse_u64 accept.amount ≡ ok amount
    → parse_amount accept ≡ done amount
unfolding parse_amount
parse_amount-done accept amount h = rw h refl

module _ (p : Platform) (wallet : Wallet) (config : ClientConfig) where
  sign_of_checks :
      (pr : PaymentRequired) (accept : PaymentAccept) (amount : ℕ) (tx json : String) (w : World)
      → pick_scheme p.protocol pr.accepts ≡ some accept
      → check_recipient config.expected_recipient accept ≡ done tt
      → parse_amount accept ≡ done amount
      → check_amount config.max_payment_amount amount ≡ done tt
      → (sign_exact p wallet config accept.pay_to amount w).0 ≡ done tx
      → p.solana.payload_json (build_payment_payload p.protocol pr.resource accept tx) ≡ ok json
      → sign_payment_for_402_with_amount p wallet config pr w ≡ (
        done (p.solana.base64_text json, amount),
        (sign_exact p wallet config accept.pay_to amount w).1,
      )
  unfolding sign_payment_for_402_with_amount encode_payment_header
  sign_of_checks pr accept amount tx json w picked recipient parsed within signed written =
      rw
        (
          sign_payment_for_402_with_amount, picked, recipient, parsed, within, signed,
          encode_payment_header, written,
        )
        refl

  paid_of_answer :
      (url : String) (req : ChatRequest) (header : String) (amount : ℕ) (w : World)
      (resp : HttpResponse) (body : String) (response : ChatResponse)
      → (exchange p.net (post url ((payment_signature, header) ∷ []) req) w).0 ≡ ok resp
      → resp.status ≡ 200
      → resp.body ≡ ok body
      → p.serde.chat_response body ≡ ok response
      → (resend p wallet config url req (header, amount) w).0 ≡ done (response, amount)
  unfolding resend send read_paid
  paid_of_answer url req header amount w resp body response answered fine read parsed = ground arith

  -- The handshake completes. Suppose that the probe is answered with 402 and a body that parses, in
  -- which the supported offer names the expected recipient, if there is one, and an amount that
  -- parses and is within the cap, if there is one; that the signer returns a transaction in the
  -- world after the probe, and its payload can be written as JSON; and that the request with that
  -- payment is answered with 200 and a response that parses. Then the chat request returns that
  -- response and the amount.
  pub send_chat_request-Completes :
      (url : String) (req : ChatRequest) (w : World) (probe resp : HttpResponse)
      (asked body tx json : String) (pr : PaymentRequired) (accept : PaymentAccept) (amount : ℕ)
      (response : ChatResponse)
      → let probed = exchange p.net (post url [] req) w in
        let signed = sign_exact p wallet config accept.pay_to amount probed.1 in
        let header = p.solana.base64_text json in
        probed.0 ≡ ok probe
        → probe.status ≡ 402
        → probe.body ≡ ok asked
        → p.serde.payment_required asked ≡ ok pr
        → pick_scheme p.protocol pr.accepts ≡ some accept
        → ((e : String) → config.expected_recipient ≡ some e → accept.pay_to ≡ e)
        → parse_u64 accept.amount ≡ ok amount
        → ((max : ℕ) → config.max_payment_amount ≡ some max → amount ≤ max)
        → signed.0 ≡ done tx
        → p.solana.payload_json (build_payment_payload p.protocol pr.resource accept tx) ≡ ok json
        → (exchange p.net (post url ((payment_signature, header) ∷ []) req) signed.1).0 ≡ ok resp
        → resp.status ≡ 200
        → resp.body ≡ ok body
        → p.serde.chat_response body ≡ ok response
        → (send_chat_request p wallet config url req w).0 ≡ done (response, amount)
  unfolding send_chat_request send answer_probe pay_and_resend_with_amount
  send_chat_request-Completes url req w probe resp asked body tx json pr accept amount response
        probed status read parsed_pr picked recipient parsed within signed written answered fine
        read_resp parsed_resp =
      let w1 = (exchange p.net (post url [] req) w).1 in
      let checks =
        sign_of_checks pr accept amount tx json w1 picked
          (check_recipient-done config.expected_recipient accept recipient)
          (parse_amount-done accept amount parsed)
          (check_amount-done config.max_payment_amount amount within) signed written in
      let paid =
        paid_of_answer url req (p.solana.base64_text json) amount
          (sign_exact p wallet config accept.pay_to amount w1).1 resp body response answered fine
          read_resp parsed_resp in
      rw (send_chat_request, probed, status, read, parsed_pr, checks) paid
