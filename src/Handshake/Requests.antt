-- ===== src/Handshake/Requests.antt =====
-- How many requests the handshake of crates/solvela-client/src/client.rs sends: its loop ends.
use solvela_client.Base.{
  min, ℕ, zero, suc, ◌+◌, ◌*◌, ◌≤◌, String, ◌∷◌, [], arith, inl, inr, Option-cases, nat_eq, ◌==◌,
}
use solvela_client.Base.Outcome.{try, Outcome}
use solvela_client.Base.Exec.{Exec, lift, ◌>>=◌, bind-post, if-post}
use solvela_client.Protocol.{ChatRequest, ChatResponse, PaymentRequired}
use solvela_client.Error.{ClientError, NetError}
use solvela_client.Config.{ClientConfig}
use solvela_client.Wallet.{Wallet, Bytes, pubkey, keypair}
use solvela_client.Net.{
  HttpRequest, HttpResponse, World, Servers, Transfer, send, exchange, requests, max_redirects,
}
use solvela_client.Platform.{Platform}
use solvela_client.Signer.{
  blockhash_request, get_latest_blockhash, sign_transaction, sign_exact_payment,
}
use solvela_client.Payment.{build_transfer, build_error, encode_transaction}
use solvela_client.Quality.{is_degraded}
use solvela_client.Handshake.{
  text, parse_402, parse_chat, post, sign_payment_for_402_with_amount, pay_and_resend_with_amount,
  answer_probe, send_chat_request, answer_retry, retry_loop, check_budget, resend,
}
use solvela_client.Handshake.Frames.{sign-world}

-- An action calls `send()` at most so often, and each call sends one request and follows at most ten
-- redirects.
abbrev pub Sends {ℓ} : {E : Type ℓ} {A : Type 0} → ℕ → Exec World E A → Type 0
Sends n m = (w : World) → requests (m w).1 ≤ requests w + 11 * n

module _ {ℓ} {E : Type ℓ} {A B : Type 0} where
  pub Sends-bind :
      (j k : ℕ) (m : Exec World E A) (f : A → Exec World E B)
      → Sends j m
      → ((a : A) → Sends k (f a))
      → Sends (j + k) (m >>= f)
  Sends-bind j k m f first rest w =
      let here = first w in
      bind-post (λ _ v. requests v ≤ requests w + 11 * (j + k)) m f w
        (λ a _. let later = rest a (m w).1 in omega (arith, here, later))
        (λ _ _. omega (arith, here)) (λ _. omega (arith, here))

  pub Sends-lift :
      (k : ℕ) (o : Outcome E A) (f : A → Exec World E B)
      → ((a : A) → Sends k (f a))
      → Sends k (lift o >>= f)
  Sends-lift k o f rest w =
      let bound = Sends-bind 0 k (lift o) f (λ v. omega arith) rest w in omega (arith, bound)

Sends-le : {A : Type 0} (j k : ℕ) (m : Exec World ClientError A) → j ≤ k → Sends j m → Sends k m
Sends-le j k m le few w = let bound = few w in omega (arith, bound, le)

min_le : (a b : ℕ) → min a b ≤ a
min_le a b = ground arith

pub exchange-requests :
    (net : Servers) (r : HttpRequest) (w : World) → requests (exchange net r w).1 ≤ requests w + 11
unfolding exchange
exchange-requests net r w =
    let few = min_le max_redirects (net (r ∷ w.sent)).redirects in omega (arith, few)

pub send-Sends {ℓ} :
    {E : Type ℓ} (f : NetError → E) (net : Servers) (r : HttpRequest) → Sends 1 (send f net r)
unfolding send
send-Sends f net r w = let few = exchange-requests net r w in omega (arith, few)

module _ (p : Platform) (wallet : Wallet) (config : ClientConfig) where
  sign_transaction-Sends :
      (ix kp hash : Bytes) (t : Transfer) → Sends 0 (sign_transaction p.solana ix wallet kp hash t)
  unfolding sign_transaction
  sign_transaction-Sends ix kp hash t w =
      elim (Option-cases (p.solana.new_transaction ix (pubkey wallet) kp hash)) [
        | inl refused ↦ rw (sign_transaction, refused) (omega arith)
        | inr (tx, made) ↦ rw (sign_transaction, made) (omega arith)
      ]

  sign_exact_payment-Sends :
      (recipient : String) (amount : ℕ)
      → Sends 1 (
          sign_exact_payment p.protocol p.crypto p.solana p.net wallet config.rpc_url recipient
            amount)
  unfolding sign_exact_payment get_latest_blockhash
  sign_exact_payment-Sends recipient amount =
      Sends-lift 1 (build_transfer p.protocol p.solana wallet recipient amount) _ (λ transfer.
        Sends-lift 1 (try (build_error "instruction build: ") (p.solana.transfer_checked transfer))
          _
          (λ ix.
            Sends-bind 1 0 (get_latest_blockhash p.solana p.net config.rpc_url) _
              (Sends-bind 1 0 (send _ p.net (blockhash_request config.rpc_url)) _
                (send-Sends _ p.net _) (λ resp w. omega arith))
              (λ blockhash. Sends-lift 0 (keypair p.crypto wallet) _ (λ signing_kp.
                Sends-bind 0 0 (sign_transaction p.solana ix wallet signing_kp blockhash transfer)
                  (λ tx. lift (encode_transaction p.solana tx))
                  (sign_transaction-Sends ix signing_kp blockhash transfer)
                  (λ tx w. omega arith)))))

  pub sign-Sends :
      (pr : PaymentRequired) → Sends 1 (sign_payment_for_402_with_amount p wallet config pr)
  sign-Sends pr w = elim (sign-world p wallet config pr w) [
    | inl same ↦ rw same (omega arith)
    | inr (accept, amount, checked, e) ↦ rw e (sign_exact_payment-Sends accept.pay_to amount w)
  ]

  pay-Sends :
      (url : String) (req : ChatRequest) (pr : PaymentRequired)
      → Sends 2 (pay_and_resend_with_amount p wallet config url req pr)
  unfolding pay_and_resend_with_amount resend
  pay-Sends url req pr =
      Sends-bind 1 1 (sign_payment_for_402_with_amount p wallet config pr)
        (resend p wallet config url req) (sign-Sends pr)
        (λ (header, amount).
          Sends-bind 1 0 (send ClientError.network p.net _) _ (send-Sends _ p.net _)
            (λ resp. Sends-lift 0 (text resp) _ (λ body v. omega arith)))

  answer_probe-Sends :
      (url : String) (req : ChatRequest) (resp : HttpResponse)
      → Sends 2 (answer_probe p wallet config url req resp)
  unfolding answer_probe
  answer_probe-Sends url req resp w =
      let Q = λ (_ : Outcome ClientError (ChatResponse × ℕ)) (v : World).
        requests v ≤ requests w + 11 * 2 in
      if-post Q (resp.status == 200) _ _ w
        (λ _.
          Sends-lift 2 (text resp) _
            (λ body. Sends-lift 2 (parse_chat p wallet config body) _ (λ parsed v. omega arith)) w)
        (λ _.
          if-post Q (resp.status == 402) _ _ w
            (λ _.
              Sends-lift 2 (text resp) _
                (λ body. Sends-lift 2 (parse_402 p wallet config body) _ (pay-Sends url req)) w)
            (λ _. omega arith))

  pub send_chat_request-Sends :
      (url : String) (req : ChatRequest) → Sends 3 (send_chat_request p wallet config url req)
  unfolding send_chat_request
  send_chat_request-Sends url req =
      Sends-bind 1 2 (send ClientError.network p.net (post url [] req)) _ (send-Sends _ p.net _)
        (answer_probe-Sends url req)

  answer_retry-Sends :
      (url : String) (req : ChatRequest) (total : ℕ) (resp : HttpResponse)
      → Sends 2 (answer_retry p wallet config url req total resp)
  unfolding answer_retry
  answer_retry-Sends url req total resp w =
      let Q = λ (_ : Outcome ClientError (ChatResponse × ℕ)) (v : World).
        requests v ≤ requests w + 11 * 2 in
      if-post Q (resp.status == 200) _ _ w
        (λ _.
          Sends-lift 2 (text resp) _
            (λ body. Sends-lift 2 (parse_chat p wallet config body) _ (λ parsed v. omega arith)) w)
        (λ _.
          if-post Q (resp.status == 402) _ _ w
            (λ _.
              Sends-lift 2 (text resp) _
                (λ body. Sends-lift 2 (parse_402 p wallet config body) _ (λ pr.
                  Sends-bind 2 0 (pay_and_resend_with_amount p wallet config url req pr) _
                    (pay-Sends url req pr)
                    (λ (paid, amount).
                      Sends-lift 0 (check_budget p wallet config _) _ (λ _ v. omega arith))))
                w)
            (λ _. omega arith))

  pub retry_loop-Sends :
      (attempts : ℕ) (url : String) (req : ChatRequest) (response : ChatResponse) (total : ℕ)
      → Sends (3 * attempts) (retry_loop p wallet config attempts url req response total)
  unfolding retry_loop
  retry_loop-Sends zero url req response total w = omega arith
  retry_loop-Sends (suc attempts) url req response total w =
      elim (Option-cases (is_degraded p.unicode response)) [
        | inl fine ↦ rw (fine, retry_loop) (omega arith)
        | inr (reason, degraded) ↦
            rw (degraded, retry_loop)
              (Sends-le {A = ChatResponse} (1 + (2 + 3 * attempts)) (3 * suc attempts)
                (send ClientError.network p.net
                    (post url (("X-Solvela-Retry-Reason", "degraded") ∷ []) req)
                  >>= next_round)
                (omega arith)
                (Sends-bind 1 (2 + 3 * attempts)
                  (send ClientError.network p.net
                    (post url (("X-Solvela-Retry-Reason", "degraded") ∷ []) req))
                  next_round (send-Sends _ p.net _)
                  (next_round-Sends (λ next total'. retry_loop-Sends attempts url req next total')))
                w)
      ]
    where
      next_round : HttpResponse → Exec World ClientError ChatResponse
      next_round resp =
          answer_retry p wallet config url req total resp
          >>= (λ (next, total'). retry_loop p wallet config attempts url req next total')

      next_round-Sends :
          ((next : ChatResponse) (total' : ℕ)
            → Sends (3 * attempts) (retry_loop p wallet config attempts url req next total'))
          → (resp : HttpResponse) → Sends (2 + 3 * attempts) (next_round resp)
      next_round-Sends later resp =
          Sends-bind 2 (3 * attempts) (answer_retry p wallet config url req total resp)
            (λ (next, total'). retry_loop p wallet config attempts url req next total')
            (answer_retry-Sends url req total resp) (λ (next, total'). later next total')
