-- ===== src/Proxy/Safety.antt =====
-- What the proxy of crates/solvela-client-proxy/src/proxy.rs may pay and send.
use solvela_client.Base.{
  ℕ, ◌+◌, ◌≤◌, String, List, [], ◌∷◌, Option, none, some, ◌≡◌, inl, inr, refl, arith, All,
  All-append, Bool-cases, ◌==◌, nat_eq, ◌<>◌, unwrap_or,
}
use solvela_client.Base.Outcome.{Result, ok, err, Outcome, done, fail, panic}
use solvela_client.Text.{ascii_lowercase}
use solvela_client.Protocol.{PaymentRequired}
use solvela_client.Net.{HttpResponse, World, exchange}
use solvela_client.Platform.{Platform}
use solvela_client.Handshake.Safety.{IsSafe, IsClean, IsPayment}
use solvela_client.Handshake.Budget.{spent}
use solvela_client.Client.Safety.{sign_402-IsPayment}
use solvela_client.Client.Spending.{sign_payment-spent}
use solvela_client.Proxy.{
  CallerRequest, ProxyState, forward_headers, gateway_request, pay_and_forward, handle_402,
  answer_gateway, proxy_handler, stripped_request_headers, ClientError, ProxyResponse, NetError,
  proxy_error_response, answer_402,
}
use solvela_client.Proxy.Headers.{IsKept, forward_headers-IsKept}

module _ (p : Platform) (state : ProxyState) where
  abbrev Safe : World → Type 0
  Safe = IsSafe p state.wallet state.config

  abbrev Clean : String × String → Type 0
  Clean h = ascii_lowercase h.0 ≡ "payment-signature" → IsPayment p state.wallet state.config h.1

  kept-Clean :
      (hs : List (String × String))
      → All (λ h. IsKept stripped_request_headers h.0) hs
      → All Clean hs
  kept-Clean [] _ = tt
  kept-Clean (h ∷ hs) ((not_host, (not_connection, (not_encoding, (not_payment, _)))), rest) =
      (λ same. absurd (not_payment same), kept-Clean hs rest)

  gateway_request-IsClean :
      (url : String) (caller : CallerRequest) (added : List (String × String))
      → All Clean added
      → IsClean p state.wallet state.config (gateway_request state.from_bytes url caller added)
  unfolding gateway_request
  gateway_request-IsClean url caller added clean =
      All-append Clean (forward_headers caller.headers) added
        (kept-Clean (forward_headers caller.headers) (forward_headers-IsKept caller.headers)) clean

  -- What the handler keeps: the world is safe, and has spent no more than the cap.
  abbrev Limited : ℕ → World → Type 0
  Limited base w = (max : ℕ) → state.config.max_payment_amount ≡ some max → spent w ≤ base + max

  pay_and_forward-IsSafe :
      (url : String) (caller : CallerRequest) (base : ℕ)
      (signed : Outcome ClientError String × World)
      → Safe signed.1
      → ((header : String) → signed.0 ≡ done header → IsPayment p state.wallet state.config header)
      → Limited base signed.1
      → Safe (pay_and_forward p state url caller signed).1
        × Limited base (pay_and_forward p state url caller signed).1
  unfolding pay_and_forward exchange
  pay_and_forward-IsSafe url caller base (done header, w) safe payment limited = (
    record {
      signed = safe.signed;
      sent = (gateway_request-IsClean url caller _ (λ _. payment header refl, tt), safe.sent);
    },
    limited,
  )
  pay_and_forward-IsSafe url caller base (fail e, w) safe payment limited = (safe, limited)
  pay_and_forward-IsSafe url caller base (panic, w) safe payment limited = (safe, limited)

  handle_402-IsSafe :
      (url : String) (caller : CallerRequest) (resp : HttpResponse) (w : World)
      → Safe w
      → Safe (handle_402 p state url caller resp w).1
        × Limited (spent w) (handle_402 p state url caller resp w).1
  unfolding handle_402
  handle_402-IsSafe url caller resp w safe = go resp.body
    where
      same : Limited (spent w) w
      same max capped = omega arith

      parsed :
          (o : Result String PaymentRequired)
          → Safe (answer_402 p state url caller o w).1
            × Limited (spent w) (answer_402 p state url caller o w).1
      parsed (err e) = (safe, same)
      parsed (ok pr) =
          let (signed, payment) = sign_402-IsPayment p state.wallet state.config pr w safe in
          pay_and_forward-IsSafe url caller (spent w) _ signed payment
            (λ max capped. sign_payment-spent p state.wallet state.config max capped pr w)

      go :
          (o : Result NetError String)
          → let out = elim o as (λ _. Option ProxyResponse × World) [
            | err e ↦ (
              some (
                  proxy_error_response 502 "invalid_402_body"
                    ("failed to read 402 response body: " <> e.message)
                    none),
              w,
            )
            | ok body ↦ answer_402 p state url caller (p.serde.payment_required body) w
          ] in
            Safe out.1 × Limited (spent w) out.1
      go (err e) = (safe, same)
      go (ok body) = parsed (p.serde.payment_required body)

  answer_gateway-IsSafe :
      (url : String) (caller : CallerRequest) (r : Result NetError HttpResponse) (w : World)
      → Safe w
      → Safe (answer_gateway p state url caller r w).1
        × Limited (spent w) (answer_gateway p state url caller r w).1
  unfolding answer_gateway
  answer_gateway-IsSafe url caller (err e) w safe = elim (Bool-cases e.is_timeout) [
    | inl late ↦ rw late (safe, λ max capped. omega arith)
    | inr other ↦ rw other (safe, λ max capped. omega arith)
  ]
  answer_gateway-IsSafe url caller (ok resp) w safe = elim (Bool-cases (resp.status == 402)) [
    | inl asked ↦ rw asked (handle_402-IsSafe url caller resp w safe)
    | inr other ↦ rw other (safe, λ max capped. omega arith)
  ]

  -- Whatever the caller sends and the servers answer, a request through the proxy keeps the wallet
  -- safe: every transfer that the key has signed is one that the configuration allows, and every
  -- header that has left the program under a payment's name, in whatever letter case, is such a
  -- payment. With a payment cap, at most the cap is signed.
  pub proxy_handler-IsSafe :
      (caller : CallerRequest) (w : World)
      → IsSafe p state.wallet state.config w
      → IsSafe p state.wallet state.config (proxy_handler p state caller w).1
        × ((max : ℕ)
            → state.config.max_payment_amount ≡ some max
            → spent (proxy_handler p state caller w).1 ≤ spent w + max)
  unfolding proxy_handler exchange
  proxy_handler-IsSafe caller w safe = answer_gateway-IsSafe _ caller _ _ (record {
    signed = safe.signed;
    sent = (
      gateway_request-IsClean (state.gateway_url <> unwrap_or caller.path_and_query "/") caller []
          tt,
      safe.sent,
    );
  })
