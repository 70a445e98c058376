-- ===== src/Handshake/Flows.antt =====
-- The safety of the handshake's flows in crates/solvela-client/src/client.rs: the first request of
-- a chat, and the retries of a degraded answer.
use solvela_client.Base.{
  nat_eq, Option-cases, ℕ, zero, suc, String, [], ◌∷◌, ◌≡◌, inl, inr, arith, string_eq, Bool-cases,
  ◌==◌, ap,
}
use solvela_client.Base.Exec.{Exec, lift, ◌>>=◌, Keeps, Keeps-bind}
use solvela_client.Protocol.{ChatRequest, ChatResponse}
use solvela_client.Error.{ClientError, NetError}
use solvela_client.Config.{ClientConfig}
use solvela_client.Wallet.{Wallet}
use solvela_client.Net.{HttpRequest, HttpResponse, World, send}
use solvela_client.Platform.{Platform}
use solvela_client.Quality.{is_degraded}
use solvela_client.Handshake.{
  post, pay_and_resend_with_amount, answer_probe, send_chat_request, answer_retry, retry_loop,
  retry_if_degraded, text, parse_402,
}
use solvela_client.Handshake.Safety.{IsSafe, IsClean, pay-IsSafe}
use solvela_client.Text.{ascii_lowercase, char_count}

module _ (p : Platform) (wallet : Wallet) (config : ClientConfig) where
  abbrev Safe : World → Type 0
  Safe = IsSafe p wallet config

  pub post-IsClean : (url : String) (req : ChatRequest) → IsClean p wallet config (post url [] req)
  post-IsClean url req = tt

  retry-IsClean :
      (url : String) (req : ChatRequest)
      → IsClean p wallet config (post url (("X-Solvela-Retry-Reason", "degraded") ∷ []) req)
  unfolding ascii_lowercase char_count
  retry-IsClean url req =
      (λ h. let sizes : 22 ≡ 17 = ap char_count h in absurd (omega (arith, sizes)), tt)

  pub send-IsSafe :
      (f : NetError → ClientError) (r : HttpRequest)
      → IsClean p wallet config r
      → Keeps Safe (send f p.net r)
  unfolding send
  send-IsSafe f r clean w safe = record { signed = safe.signed; sent = (clean, safe.sent) }

  read-IsSafe {κ} :
      {B : Type κ} (resp : HttpResponse) (f : String → Exec World ClientError B)
      → ((body : String) → Keeps Safe (f body))
      → Keeps Safe (lift (text resp) >>= f)
  read-IsSafe resp f kf = Keeps-bind Safe (lift (text resp)) f (λ w safe. safe) kf

  answer_probe-IsSafe :
      (url : String) (req : ChatRequest) (resp : HttpResponse)
      → Keeps Safe (answer_probe p wallet config url req resp)
  unfolding answer_probe
  answer_probe-IsSafe url req resp w safe = elim (Bool-cases (resp.status == 200)) [
    | inl ok_status ↦ rw ok_status (ground arith)
    | inr other ↦ elim (Bool-cases (resp.status == 402)) [
      | inl asked ↦
          rw (other, asked)
            (read-IsSafe resp _
              (λ body.
                Keeps-bind Safe (lift (parse_402 p wallet config body)) _ (λ v s. s)
                  (λ pr v s. pay-IsSafe p wallet config url req pr v s))
              w safe)
      | inr neither ↦ rw (other, neither) safe
    ]
  ]

  pub send_chat_request-IsSafe :
      (url : String) (req : ChatRequest) → Keeps Safe (send_chat_request p wallet config url req)
  unfolding send_chat_request
  send_chat_request-IsSafe url req =
      Keeps-bind Safe (send ClientError.network p.net (post url [] req)) _
        (send-IsSafe ClientError.network (post url [] req) (post-IsClean url req))
        (answer_probe-IsSafe url req)

  answer_retry-IsSafe :
      (url : String) (req : ChatRequest) (total : ℕ) (resp : HttpResponse)
      → Keeps Safe (answer_retry p wallet config url req total resp)
  unfolding answer_retry
  answer_retry-IsSafe url req total resp w safe = elim (Bool-cases (resp.status == 200)) [
    | inl ok_status ↦ rw ok_status (ground arith)
    | inr other ↦ elim (Bool-cases (resp.status == 402)) [
      | inl asked ↦
          rw (other, asked)
            (read-IsSafe resp _
              (λ body.
                Keeps-bind Safe (lift (parse_402 p wallet config body)) _ (λ v s. s)
                  (λ pr.
                    Keeps-bind Safe (pay_and_resend_with_amount p wallet config url req pr) _
                      (pay-IsSafe p wallet config url req pr)
                      (λ (paid_resp, paid_amount) v s. ground arith)))
              w safe)
      | inr neither ↦ rw (other, neither) safe
    ]
  ]

  retry_loop-IsSafe :
      (attempts : ℕ) (url : String) (req : ChatRequest) (response : ChatResponse) (total : ℕ)
      → Keeps Safe (retry_loop p wallet config attempts url req response total)
  unfolding retry_loop
  retry_loop-IsSafe zero url req response total w safe = safe
  retry_loop-IsSafe (suc attempts) url req response total w safe =
      elim (Option-cases (is_degraded p.unicode response)) [
        | inl fine ↦ rw (fine, retry_loop) safe
        | inr (reason, degraded) ↦
            rw (degraded, retry_loop)
              (Keeps-bind Safe (send ClientError.network p.net _) _
                (send-IsSafe ClientError.network _ (retry-IsClean url req))
                (λ resp.
                  Keeps-bind Safe (answer_retry p wallet config url req total resp) _
                    (answer_retry-IsSafe url req total resp)
                    (λ (next, total'). retry_loop-IsSafe attempts url req next total'))
                w safe)
      ]

  pub retry_if_degraded-IsSafe :
      (url : String) (req : ChatRequest) (response : ChatResponse) (paid : ℕ)
      → Keeps Safe (retry_if_degraded p wallet config url req response paid)
  unfolding retry_if_degraded
  retry_if_degraded-IsSafe url req response paid =
      retry_loop-IsSafe config.max_quality_retries url req response paid
