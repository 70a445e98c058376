-- ===== src/Handshake/Spending.antt =====
-- The money of the flows of crates/solvela-client/src/client.rs: the first request of a chat, and
-- the retries of a degraded answer, whose payments are added up.
use solvela_client.Base.{
  ℕ, zero, suc, ◌+◌, ◌*◌, ◌≤◌, ◌<◌, String, [], ◌∷◌, some, ◌≡◌, inl, inr, refl, arith, Bool-cases,
  Option-cases, ◌==◌, nat_eq,
}
use solvela_client.Base.Outcome.{Outcome, done, fail, panic}
use solvela_client.Base.Exec.{Exec, lift, pure, ◌>>=◌, bind-post}
use solvela_client.Text.Digits.{u64_max}
use solvela_client.Protocol.{ChatRequest, ChatResponse, PaymentRequired}
use solvela_client.Error.{NetError, ClientError}
use solvela_client.Config.{ClientConfig}
use solvela_client.Wallet.{Wallet}
use solvela_client.Net.{HttpRequest, HttpResponse, World, send}
use solvela_client.Platform.{Platform}
use solvela_client.Quality.{is_degraded}
use solvela_client.Handshake.{
  post, pay_and_resend_with_amount, text, parse_402, answer_probe, send_chat_request, answer_retry,
  retry_loop, retry_if_degraded, check_budget, saturating_add,
}
use solvela_client.Handshake.Budget.{spent, Charged, pay-Charged}

module _ (p : Platform) (wallet : Wallet) (config : ClientConfig) (max : ℕ)
    (capped : config.max_payment_amount ≡ some max) where
  pub send-spent :
      (f : NetError → ClientError) (r : HttpRequest) (w : World)
      → spent (send f p.net r w).1 ≡ spent w
  unfolding send
  send-spent f r w = refl

  abbrev Charges : ℕ → Outcome ClientError (ChatResponse × ℕ) → World → Type 0
  Charges = Charged p wallet config max capped

  answer_probe-Charged :
      (url : String) (req : ChatRequest) (resp : HttpResponse) (w : World)
      → Charges
          (spent w)
          (answer_probe p wallet config url req resp w).0
          (answer_probe p wallet config url req resp w).1
  unfolding answer_probe
  answer_probe-Charged url req resp w = elim (Bool-cases (resp.status == 200)) [
    | inl ok_status ↦ rw ok_status (ground arith, λ r a h. ground arith)
    | inr other ↦ elim (Bool-cases (resp.status == 402)) [
      | inl asked ↦
          rw (other, asked)
            (bind-post (Charges (spent w)) (lift (text resp)) _ w
              (λ body _.
                bind-post (Charges (spent w)) (lift (parse_402 p wallet config body)) _ w
                  (λ pr _. pay-Charged p wallet config max capped url req pr w)
                  (λ e _. (omega arith, λ r a h. cc)) (λ _. (omega arith, λ r a h. cc)))
              (λ e _. (omega arith, λ r a h. cc)) (λ _. (omega arith, λ r a h. cc)))
      | inr neither ↦ rw (other, neither) (omega arith, λ r a h. cc)
    ]
  ]

  -- The first request of a chat pays no more than the cap, and exactly what it reports.
  pub send_chat_request-Charged :
      (url : String) (req : ChatRequest) (w : World)
      → Charges
          (spent w)
          (send_chat_request p wallet config url req w).0
          (send_chat_request p wallet config url req w).1
  unfolding send_chat_request
  send_chat_request-Charged url req w =
      let probe : Exec World ClientError HttpResponse =
        send ClientError.network p.net (post url [] req) in
      let same = send-spent ClientError.network (post url [] req) w in
      bind-post (Charges (spent w)) probe _ w
        (λ resp _. rw same at (answer_probe-Charged url req resp (probe w).1))
        (λ e _. (omega (arith, same), λ r a h. cc)) (λ _. (omega (arith, same), λ r a h. cc))

  -- In the loop, which began with `base` spent before the chat: never more than twice the cap; and
  -- the running total, within the cap, is what the chat has spent.
  abbrev Advanced : ℕ → Outcome ClientError (ChatResponse × ℕ) → World → Type 0
  Advanced base o w =
      (spent w ≤ base + 2 * max)
      × ((r : ChatResponse) (t : ℕ) → o ≡ done (r, t) → (spent w ≡ base + t) × (t ≤ max))

  -- The total that passes the check has not been cut off by `saturating_add`.
  check_budget-total :
      (total a : ℕ)
      → max < u64_max
      → check_budget p wallet config (saturating_add total a) ≡ done tt
      → (saturating_add total a ≡ total + a) × (total + a ≤ max)
  unfolding check_budget
  check_budget-total total a small h = ground arith

  answer_retry-Advanced :
      (base total : ℕ) (url : String) (req : ChatRequest) (resp : HttpResponse) (w : World)
      → max < u64_max
      → spent w ≡ base + total
      → total ≤ max
      → Advanced base
          (answer_retry p wallet config url req total resp w).0
          (answer_retry p wallet config url req total resp w).1
  unfolding answer_retry
  answer_retry-Advanced base total url req resp w small start within =
      elim (Bool-cases (resp.status == 200)) [
        | inl ok_status ↦ rw ok_status (ground arith, λ r t h. ground arith)
        | inr other ↦ elim (Bool-cases (resp.status == 402)) [
          | inl asked ↦
              rw (other, asked)
                (bind-post (Advanced base) (lift (text resp)) _ w
                  (λ body _.
                    bind-post (Advanced base) (lift (parse_402 p wallet config body)) _ w
                      (λ pr _. paid pr) stopped (λ _. halted))
                  stopped (λ _. halted))
          | inr neither ↦ rw (other, neither) (omega arith, λ r t h. cc)
        ]
      ]
    where
      halted : Advanced base panic w
      halted = (omega arith, λ r t h. cc)

      stopped :
          {A : Type 0} {o : Outcome ClientError A} (e : ClientError)
          → o ≡ fail e
          → Advanced base (fail e) w
      stopped e _ = (omega arith, λ r t h. cc)

      paid :
          (pr : PaymentRequired)
          → let pay = pay_and_resend_with_amount p wallet config url req pr in
            let rest : ChatResponse × ℕ → Exec World ClientError (ChatResponse × ℕ) =
              λ (paid_resp, paid_amount).
                lift (check_budget p wallet config (saturating_add total paid_amount))
                >>= (λ _. pure (paid_resp, saturating_add total paid_amount)) in
            Advanced base ((pay >>= rest) w).0 ((pay >>= rest) w).1
      paid pr =
          let (bound, exact) = pay-Charged p wallet config max capped url req pr w in
          bind-post (Advanced base) (pay_and_resend_with_amount p wallet config url req pr) _ w
            (λ (r, a) e.
              let (grown, small_a) = exact r a e in
              (
                ground (arith, grown),
                λ r' t h. ground (arith, grown, check_budget-total total a small),
              ))
            (λ e _. (omega (arith, bound), λ r t h. cc)) (λ _. (omega (arith, bound), λ r t h. cc))

  -- The loop's end: twice the cap at most, and the cap at most if it returns a response.
  abbrev pub Ended : ℕ → Outcome ClientError ChatResponse → World → Type 0
  Ended base o w =
      (spent w ≤ base + 2 * max) × ((r : ChatResponse) → o ≡ done r → spent w ≤ base + max)

  retry_loop-Ended :
      (attempts base total : ℕ) (url : String) (req : ChatRequest) (response : ChatResponse)
      (w : World)
      → max < u64_max
      → spent w ≡ base + total
      → total ≤ max
      → Ended base
          (retry_loop p wallet config attempts url req response total w).0
          (retry_loop p wallet config attempts url req response total w).1
  unfolding retry_loop
  retry_loop-Ended zero base total url req response w small start within =
      (omega arith, λ r h. omega arith)
  retry_loop-Ended (suc attempts) base total url req response w small start within =
      elim (Option-cases (is_degraded p.unicode response)) [
        | inl fine ↦ rw (fine, retry_loop) (omega arith, λ r h. omega arith)
        | inr (reason, degraded) ↦
            let request = post url (("X-Solvela-Retry-Reason", "degraded") ∷ []) req in
            let probe : Exec World ClientError HttpResponse =
              send ClientError.network p.net request in
            let same = send-spent ClientError.network request w in
            rw (degraded, retry_loop)
              (bind-post (Ended base) probe _ w
                (λ resp _.
                  let (bound, exact) =
                    answer_retry-Advanced base total url req resp (probe w).1 small
                      (omega (arith, same)) within in
                  bind-post (Ended base) (answer_retry p wallet config url req total resp) _
                    (probe w).1
                    (λ (next, total') e.
                      let (grown, within') = exact next total' e in
                      retry_loop-Ended attempts base total' url req next _ small grown within')
                    (λ e _. (bound, λ r h. cc)) (λ _. (bound, λ r h. cc)))
                (λ e _. (omega (arith, same), λ r h. cc)) (λ _. (omega (arith, same), λ r h. cc)))
      ]

  -- With a payment cap below the largest 64-bit number, when the first request has paid `paid`,
  -- within the cap, on top of `base`: after the retries the key has signed transfers of at most
  -- `base` and twice the cap; and if they return a response, of at most `base` and the cap.
  pub retry_if_degraded-Ended :
      (base paid : ℕ) (url : String) (req : ChatRequest) (response : ChatResponse) (w : World)
      → max < u64_max
      → spent w ≡ base + paid
      → paid ≤ max
      → Ended base
          (retry_if_degraded p wallet config url req response paid w).0
          (retry_if_degraded p wallet config url req response paid w).1
  unfolding retry_if_degraded
  retry_if_degraded-Ended base paid url req response w small start within =
      retry_loop-Ended config.max_quality_retries base paid url req response w small start within
