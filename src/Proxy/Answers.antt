-- ===== src/Proxy/Answers.antt =====
-- Every request to the proxy of crates/solvela-client-proxy/src/proxy.rs is answered, and by what.
use solvela_client.Base.{
  ℕ, String, Option, none, some, List, ◌≡◌, ◌≢◌, ◌⊎◌, inl, inr, refl, arith, Bool-cases, nat_eq,
  ◌==◌,
}
use solvela_client.Base.Outcome.{Result, ok, err, Outcome, done, fail, panic, Result-cases}
use solvela_client.Error.{NetError, ClientError}
use solvela_client.Protocol.{PaymentRequired}
use solvela_client.Wallet.Laws.{IsValid}
use solvela_client.Signer.Total.{IsTotal}
use solvela_client.Net.{HttpRequest, HttpResponse, World, exchange}
use solvela_client.Platform.{Platform}
use solvela_client.Handshake.Total.{sign_payment_for_402-NoPanic}
use solvela_client.Proxy.Router.{refused, handled, max_body_size, build_proxy_router}
use solvela_client.Base.{length, leb, ◌≤◌, ◌<◌}
use solvela_client.Proxy.{
  CallerRequest, ProxyState, ProxyResponse, proxy_error_response, build_passthrough_response,
  client_error_to_response, answer_paid, pay_and_forward, handle_402, answer_gateway, proxy_handler,
  answer_402,
}

-- An error of the proxy's own: its status is that of a bad gateway or of a timeout.
pub record IsError (r : ProxyResponse) : Type 0 where
  pub status : (r.status ≡ 502) ⊎ (r.status ≡ 504)
  pub error_type : String
  pub message : String
  pub made : r ≡ proxy_error_response r.status error_type message none

module _ (p : Platform) where
  -- An answer of the servers, other than a request to pay, passed on.
  pub record IsPassed (r : ProxyResponse) : Type 0 where
    pub resp : HttpResponse
    pub sent : List HttpRequest
    pub answered : (p.net sent).reply ≡ ok resp
    pub unpaid : resp.status ≢ 402
    pub made : r ≡ build_passthrough_response resp

  abbrev pub Answered : Option ProxyResponse → Type 0
  Answered o = (r : ProxyResponse) × (o ≡ some r) × (r.status ≢ 402) × (IsError r ⊎ IsPassed r)

  error-Answered :
      (status : ℕ) (error_type message : String)
      → (status ≡ 502) ⊎ (status ≡ 504)
      → Answered (some (proxy_error_response status error_type message none))
  unfolding proxy_error_response
  error-Answered status error_type message h = (
    proxy_error_response status error_type message none,
    refl,
    λ e. omega (arith, e, h),
    inl (record { status = h; error_type = error_type; message = message; made = refl }),
  )

  passed-Answered :
      (resp : HttpResponse) (sent : List HttpRequest)
      → (p.net sent).reply ≡ ok resp
      → resp.status ≢ 402
      → Answered (some (build_passthrough_response resp))
  unfolding build_passthrough_response
  passed-Answered resp sent answered unpaid = (
    build_passthrough_response resp,
    refl,
    λ e. ground arith,
    inr (record { resp = resp; sent = sent; answered = answered; unpaid = unpaid; made = refl }),
  )

  answer_paid-Answered :
      (sent : List HttpRequest) (r : Result NetError HttpResponse)
      → (p.net sent).reply ≡ r
      → Answered (some (answer_paid r))
  unfolding answer_paid
  answer_paid-Answered sent (err e) same = error-Answered 502 _ _ (inl refl)
  answer_paid-Answered sent (ok resp) same = elim (Bool-cases (resp.status == 402)) [
    | inl rejected ↦ rw rejected (error-Answered 502 _ _ (inl refl))
    | inr other ↦ rw other (passed-Answered resp sent same (λ e. ground arith))
  ]

  module _ (state : ProxyState) where
    pay_and_forward-Answered :
        (url : String) (caller : CallerRequest) (o : Outcome ClientError String) (w : World)
        → o ≢ panic
        → Answered (pay_and_forward p state url caller (o, w)).0
    unfolding pay_and_forward exchange client_error_to_response
    pay_and_forward-Answered url caller (done header) w steady = answer_paid-Answered _ _ refl
    pay_and_forward-Answered url caller (fail e) w steady = error-Answered 502 _ _ (inl refl)
    pay_and_forward-Answered url caller panic w steady = absurd (steady refl)

    module _ (total : IsTotal p.solana) (valid : IsValid p.crypto state.wallet) where
      parsed-Answered :
          (url : String) (caller : CallerRequest) (o : Result String PaymentRequired) (w : World)
          → Answered (answer_402 p state url caller o w).0
      parsed-Answered url caller (err e) w = error-Answered 502 _ _ (inl refl)
      parsed-Answered url caller (ok pr) w =
          pay_and_forward-Answered url caller _ _
            (sign_payment_for_402-NoPanic p state.wallet state.config total valid pr w)

      handle_402-Answered :
          (url : String) (caller : CallerRequest) (resp : HttpResponse) (w : World)
          → Answered (handle_402 p state url caller resp w).0
      unfolding handle_402
      handle_402-Answered url caller resp w = elim (Result-cases resp.body) [
        | inl (body, read) ↦ rw read (parsed-Answered url caller (p.serde.payment_required body) w)
        | inr (e, failed) ↦ rw failed (error-Answered 502 _ _ (inl refl))
      ]

      answer_gateway-Answered :
          (url : String) (caller : CallerRequest) (sent : List HttpRequest)
          (r : Result NetError HttpResponse) (w : World)
          → (p.net sent).reply ≡ r
          → Answered (answer_gateway p state url caller r w).0
      unfolding answer_gateway
      answer_gateway-Answered url caller sent (err e) w same = elim (Bool-cases e.is_timeout) [
        | inl late ↦ rw late (error-Answered 504 _ _ (inr refl))
        | inr other ↦ rw other (error-Answered 502 _ _ (inl refl))
      ]
      answer_gateway-Answered url caller sent (ok resp) w same =
          elim (Bool-cases (resp.status == 402)) [
            | inl asked ↦ rw asked (handle_402-Answered url caller resp w)
            | inr other ↦ rw other (passed-Answered resp sent same (λ e. ground arith))
          ]

      pub proxy_handler-Answered :
          (caller : CallerRequest) (w : World) → Answered (proxy_handler p state caller w).0
      unfolding proxy_handler exchange
      proxy_handler-Answered caller w = answer_gateway-Answered _ caller _ _ _ refl

      -- If the wallet holds an accepted keypair, the address of the token program is a key, the JSON of
      -- a payload can be made, and the crates sign every transaction of a transfer whose payer and
      -- authority are the key that signs: then every request to the proxy whose body arrives is
      -- answered, whatever the servers do. A body that is longer than 10 MiB, or than
      -- what the HTTP library reads, is refused with the status 413, and nothing is sent or signed.
      -- Any other request is answered by an error of the proxy's own with the status 502 or 504, or
      -- by an answer of the servers that does not ask to pay, passed on; the caller never gets the
      -- status 402.
      pub build_proxy_router-Answered :
          (bytes_limit : ℕ) (caller : CallerRequest) (w : World)
          → let routed = build_proxy_router bytes_limit p state caller w in
            ((10_485_760 < length caller.body ⊎ bytes_limit < length caller.body)
              × (routed ≡ (refused 413, w)))
            ⊎ ((length caller.body ≤ 10_485_760)
                × (length caller.body ≤ bytes_limit)
                × ((o : Option ProxyResponse) × (routed.0 ≡ handled o) × Answered o))
      unfolding build_proxy_router
      build_proxy_router-Answered bytes_limit caller w =
          let size = length caller.body in
          elim (Bool-cases (leb size max_body_size)) [
            | inr long ↦ rw (long, build_proxy_router) (inl (inl (ground arith), refl))
            | inl short ↦ elim (Bool-cases (leb size bytes_limit)) [
              | inr long ↦ rw (short, long, build_proxy_router) (inl (inr (ground arith), refl))
              | inl fits ↦
                  rw (short, fits, build_proxy_router)
                    (inr (ground arith, ground arith, (_, refl, proxy_handler-Answered caller w)))
            ]
          ]
