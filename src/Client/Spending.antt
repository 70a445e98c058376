-- ===== src/Client/Spending.antt =====
-- The money of one chat or streaming chat of crates/solvela-client/src/client.rs, when the
-- configuration has a payment cap.
use solvela_client.Base.{
  ℕ, ◌+◌, ◌*◌, ◌≤◌, ◌<◌, String, List, some, ◌≡◌, inl, inr, refl, arith, Option-cases, nat_eq, ◌==◌,
  [], ◌∷◌, false,
}
use solvela_client.Base.Outcome.{Outcome, done, fail, panic}
use solvela_client.Base.Exec.{Exec, lift, pure, ◌>>=◌, bind-post, if-post}
use solvela_client.Text.Digits.{u64_max}
use solvela_client.Protocol.{ChatRequest, ChatResponse, PaymentRequired}
use solvela_client.Error.{ClientError}
use solvela_client.Config.{ClientConfig}
use solvela_client.Wallet.{Wallet}
use solvela_client.Cache.{LruCache}
use solvela_client.Net.{HttpResponse, World, send}
use solvela_client.Platform.{Platform}
use solvela_client.Handshake.{
  post, payment_signature, text, parse_402, sign_payment_for_402, sign_payment_for_402_with_amount,
  send_chat_request,
}
use solvela_client.Handshake.Budget.{spent, sign-Charged}
use solvela_client.Handshake.Spending.{send_chat_request-Charged, retry_if_degraded-Ended}
use solvela_client.Client.{SolvelaClient, Prepared, prepare, finish, fetch, chat, chat_url}
use solvela_client.Client.Stream.{stream_headers, open_stream, chat_stream}

module _ (p : Platform) (wallet : Wallet) (config : ClientConfig) (max : ℕ)
    (capped : config.max_payment_amount ≡ some max) where
  abbrev Ends : ℕ → Outcome ClientError ChatResponse → World → Type 0
  Ends base o w =
      (spent w ≤ base + 2 * max) × ((r : ChatResponse) → o ≡ done r → spent w ≤ base + max)

  fetch-Ends :
      (req : ChatRequest) (w : World)
      → max < u64_max
      → Ends (spent w) (fetch p wallet config req w).0 (fetch p wallet config req w).1
  unfolding fetch
  fetch-Ends req w small =
      let (bound, exact) =
        send_chat_request-Charged p wallet config max capped (chat_url config) req w in
      bind-post (Ends (spent w)) (send_chat_request p wallet config (chat_url config) req) _ w
        (λ (response, paid) e.
          let (same, within) = exact response paid e in
          if-post (Ends (spent w)) config.enable_quality_check _ (pure response) _
            (λ _.
              retry_if_degraded-Ended p wallet config max capped (spent w) paid (chat_url config)
                req response _ small same within)
            (λ _. (omega (arith, same), λ r h. omega (arith, same))))
        (λ x _. (omega (arith, bound), λ r h. cc)) (λ _. (omega (arith, bound), λ r h. cc))

  abbrev Limited {ℓ} : {A : Type ℓ} → ℕ → Outcome ClientError A → World → Type 0
  Limited base o w = spent w ≤ base + max

  pub sign_payment-spent :
      (pr : PaymentRequired) (w : World)
      → spent (sign_payment_for_402 p wallet config pr w).1 ≤ spent w + max
  unfolding sign_payment_for_402
  sign_payment-spent pr w =
      let bound = (sign-Charged p wallet config max capped pr w).0 in
      bind-post (Limited (spent w)) (sign_payment_for_402_with_amount p wallet config pr) _ w
        (λ (header, amount) _. bound) (λ _ _. bound) (λ _. bound)

  stream_headers-Limited :
      (resp : HttpResponse) (w : World)
      → Limited
          (spent w)
          (stream_headers p wallet config resp w).0
          (stream_headers p wallet config resp w).1
  unfolding stream_headers
  stream_headers-Limited resp w =
      if-post (Limited (spent w)) (resp.status == 200) _ _ w (λ _. omega arith)
        (λ _.
          if-post (Limited (spent w)) (resp.status == 402) _ _ w
            (λ _.
              bind-post (Limited (spent w)) (lift (text resp)) _ w
                (λ body _.
                  bind-post (Limited (spent w)) (lift (parse_402 p wallet config body)) _ w
                    (λ pr _. pay pr) (λ _ _. omega arith) (λ _. omega arith))
                (λ _ _. omega arith) (λ _. omega arith))
            (λ _. omega arith))
    where
      pay :
          (pr : PaymentRequired)
          → let m : Exec World ClientError (List (String × String)) =
              sign_payment_for_402 p wallet config pr
              >>= (λ header. pure ((payment_signature, header) ∷ [])) in
            Limited (spent w) (m w).0 (m w).1
      pay pr =
          let bound = sign_payment-spent pr w in
          bind-post (Limited (spent w)) (sign_payment_for_402 p wallet config pr) _ w (λ _ _. bound)
            (λ _ _. bound) (λ _. bound)

  open_stream-Limited :
      (req : ChatRequest) (w : World)
      → Limited
          (spent w)
          (open_stream p wallet config req w).0
          (open_stream p wallet config req w).1
  unfolding open_stream send
  open_stream-Limited req w =
      let probe = post (chat_url config) [] (record req { stream = false }) in
      bind-post (Limited (spent w)) (send ClientError.network p.net probe) _ w
        (λ resp _.
          let bound = stream_headers-Limited resp (send ClientError.network p.net probe w).1 in
          bind-post (Limited (spent w)) (stream_headers p wallet config resp) _ _
            (λ headers _.
              bind-post (Limited (spent w)) (send ClientError.network p.net _) _ _ (λ _ _. bound)
                (λ _ _. bound) (λ _. bound))
            (λ _ _. bound) (λ _. bound))
        (λ _ _. omega arith) (λ _. omega arith)

module _ (L : LruCache) (p : Platform) where
  finish-spent :
      (prepared : Prepared L) (r : Outcome ClientError ChatResponse × World)
      → ((finish L p prepared r).0 ≡ r.0) × ((finish L p prepared r).2 ≡ r.1)
  unfolding finish
  finish-spent prepared (done response, w) = (refl, refl)
  finish-spent prepared (fail e, w) = (refl, refl)
  finish-spent prepared (panic, w) = (refl, refl)

  -- With a payment cap below the largest 64-bit number, and whatever the servers answer: a chat that
  -- returns a response has signed transfers of at most the cap in all, its retries included; a chat
  -- that ends otherwise, of at most twice the cap; a streaming chat, of at most the cap.
  pub chat-Ends :
      (req : ChatRequest) (client : SolvelaClient L) (w : World) (max : ℕ)
      → client.config.max_payment_amount ≡ some max
      → max < u64_max
      → ((r : ChatResponse)
          → (chat L p req client w).0 ≡ done r
          → spent (chat L p req client w).2 ≤ spent w + max)
        × (spent (chat L p req client w).2 ≤ spent w + 2 * max)
        × (spent (chat_stream L p req client w).2 ≤ spent w + max)
  unfolding chat chat_stream
  chat-Ends req client w max capped small = (
    elim (Option-cases (prepare L p client req w.clock).cached) [
      | inl missed ↦ rw (chat, missed, same.0, same.1) ends.1
      | inr (cached, hit) ↦ rw (chat, hit) (λ r h. omega arith)
    ],
    elim (Option-cases (prepare L p client req w.clock).cached) [
      | inl missed ↦ rw (chat, missed, same.1) ends.0
      | inr (cached, hit) ↦ rw (chat, hit) (omega arith)
    ],
    open_stream-Limited p client.wallet client.config max capped _ w,
  )
    where
      prepared : Prepared L
      prepared = prepare L p client req w.clock

      same :
          let r = fetch p client.wallet client.config prepared.request w in
          ((finish L p prepared r).0 ≡ r.0) × ((finish L p prepared r).2 ≡ r.1)
      same = finish-spent prepared (fetch p client.wallet client.config prepared.request w)

      ends :
          Ends p client.wallet client.config max capped
            (spent w)
            (fetch p client.wallet client.config prepared.request w).0
            (fetch p client.wallet client.config prepared.request w).1
      ends = fetch-Ends p client.wallet client.config max capped prepared.request w small

  -- Without quality retries a chat keeps to the cap, however it ends, and a streaming chat does.
  pub chat-Limited :
      (req : ChatRequest) (client : SolvelaClient L) (w : World) (max : ℕ)
      → client.config.max_payment_amount ≡ some max
      → client.config.enable_quality_check ≡ false
      → (spent (chat L p req client w).2 ≤ spent w + max)
        × (spent (chat_stream L p req client w).2 ≤ spent w + max)
  unfolding chat chat_stream fetch
  chat-Limited req client w max capped unchecked = (
    elim (Option-cases (prepare L p client req w.clock).cached) [
      | inl missed ↦
          let prepared = prepare L p client req w.clock in
          let same =
            finish-spent prepared (fetch p client.wallet client.config prepared.request w) in
          rw (chat, missed, same.1) (paid prepared.request)
      | inr (cached, hit) ↦ rw (chat, hit) (omega arith)
    ],
    open_stream-Limited p client.wallet client.config max capped _ w,
  )
    where
      paid :
          (request : ChatRequest)
          → spent (fetch p client.wallet client.config request w).1 ≤ spent w + max
      paid request =
          let (bound, exact) =
            send_chat_request-Charged p client.wallet client.config max capped
              (chat_url client.config) request w in
          bind-post (λ (_ : Outcome ClientError ChatResponse) v. spent v ≤ spent w + max)
            (send_chat_request p client.wallet client.config (chat_url client.config) request) _ w
            (λ (response, paid) e.
              if-post (λ (_ : Outcome ClientError ChatResponse) v. spent v ≤ spent w + max)
                client.config.enable_quality_check _ (pure response) _
                (λ checked. absurd (cc (checked, unchecked))) (λ _. bound))
            (λ _ _. bound) (λ _. bound)
