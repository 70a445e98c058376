-- ===== src/Client/Total.antt =====
-- The chats of crates/solvela-client/src/client.rs do not panic.
use solvela_client.Base.{
  refl, ℕ, zero, suc, String, [], ◌∷◌, ◌≢◌, ◌==◌, nat_eq, arith, inl, inr, Option-cases, none, some,
  Option,
}
use solvela_client.Base.Outcome.{Outcome, done, fail, panic}
use solvela_client.Base.Exec.{Exec, lift, pure, ◌>>=◌}
use solvela_client.Protocol.{ChatRequest, ChatResponse, PaymentRequired}
use solvela_client.Error.{ClientError}
use solvela_client.Config.{ClientConfig}
use solvela_client.Wallet.{Wallet}
use solvela_client.Wallet.Laws.{IsValid}
use solvela_client.Cache.{LruCache}
use solvela_client.Net.{HttpResponse, World, send}
use solvela_client.Platform.{Platform}
use solvela_client.Quality.{is_degraded, DegradedReason}
use solvela_client.Signer.Total.{
  IsTotal, NoPanic, NoPanic-bind, NoPanic-if, try_ne_panic, send-NoPanic,
}
use solvela_client.Handshake.{
  text, parse_402, parse_chat, post, sign_payment_for_402_with_amount, pay_and_resend_with_amount,
  answer_probe, send_chat_request, answer_retry, retry_loop, retry_if_degraded, check_budget,
  resend, read_paid, sign_payment_for_402,
}
use solvela_client.Handshake.Total.{sign-NoPanic, sign_payment_for_402-NoPanic}
use solvela_client.Client.{SolvelaClient, Prepared, prepare, finish, fetch, chat, chat_url}
use solvela_client.Client.Stream.{stream_headers, open_events, open_stream, chat_stream}

module _ (p : Platform) (wallet : Wallet) (config : ClientConfig) (total : IsTotal p.solana)
    (valid : IsValid p.crypto wallet) where
  text-NoPanic :
      {B : Type 0} (resp : HttpResponse) (f : String → Exec World ClientError B)
      → ((body : String) → NoPanic (f body))
      → NoPanic (lift (text resp) >>= f)
  text-NoPanic resp f rest =
      NoPanic-bind (lift (text resp)) f (λ s. try_ne_panic ClientError.network resp.body) rest

  -- The body of an answer is read, parsed and used.
  parsed-NoPanic :
      {A B : Type 0} (resp : HttpResponse) (parse : String → Outcome ClientError A)
      (f : A → Exec World ClientError B)
      → ((body : String) → parse body ≢ panic)
      → ((a : A) → NoPanic (f a))
      → NoPanic (lift (text resp) >>= (λ body. lift (parse body) >>= f))
  parsed-NoPanic resp parse f steady rest =
      text-NoPanic resp _ (λ body. NoPanic-bind (lift (parse body)) f (λ s. steady body) rest)

  read_paid_ne_panic :
      (amount status : ℕ) (body : String) → read_paid p wallet config amount status body ≢ panic
  unfolding read_paid
  read_paid_ne_panic amount status body h = ground arith

  check_budget_ne_panic : (sum : ℕ) → check_budget p wallet config sum ≢ panic
  unfolding check_budget
  check_budget_ne_panic sum h = ground arith

  pay-NoPanic :
      (url : String) (req : ChatRequest) (pr : PaymentRequired)
      → NoPanic (pay_and_resend_with_amount p wallet config url req pr)
  unfolding pay_and_resend_with_amount resend
  pay-NoPanic url req pr =
      NoPanic-bind (sign_payment_for_402_with_amount p wallet config pr)
        (resend p wallet config url req) (sign-NoPanic p wallet config total valid pr)
        (λ (header, amount).
          NoPanic-bind (send ClientError.network p.net _) _ (send-NoPanic _ p.net _)
            (λ resp. text-NoPanic resp _ (λ body s. read_paid_ne_panic amount resp.status body)))

  answer_probe-NoPanic :
      (url : String) (req : ChatRequest) (resp : HttpResponse)
      → NoPanic (answer_probe p wallet config url req resp)
  unfolding answer_probe
  answer_probe-NoPanic url req resp =
      NoPanic-if (resp.status == 200) _ _
        (parsed-NoPanic resp (parse_chat p wallet config) _ (λ body. try_ne_panic _ _)
          (λ parsed s h. cc h))
        (NoPanic-if (resp.status == 402) _ _
          (parsed-NoPanic resp (parse_402 p wallet config) _ (λ body. try_ne_panic _ _)
            (pay-NoPanic url req))
          (λ s h. cc h))

  send_chat_request-NoPanic :
      (url : String) (req : ChatRequest) → NoPanic (send_chat_request p wallet config url req)
  unfolding send_chat_request
  send_chat_request-NoPanic url req =
      NoPanic-bind (send ClientError.network p.net (post url [] req)) _ (send-NoPanic _ p.net _)
        (answer_probe-NoPanic url req)

  answer_retry-NoPanic :
      (url : String) (req : ChatRequest) (paid : ℕ) (resp : HttpResponse)
      → NoPanic (answer_retry p wallet config url req paid resp)
  unfolding answer_retry
  answer_retry-NoPanic url req paid resp =
      NoPanic-if (resp.status == 200) _ _
        (parsed-NoPanic resp (parse_chat p wallet config) _ (λ body. try_ne_panic _ _)
          (λ parsed s h. cc h))
        (NoPanic-if (resp.status == 402) _ _
          (parsed-NoPanic resp (parse_402 p wallet config) _ (λ body. try_ne_panic _ _)
            (λ pr.
              NoPanic-bind (pay_and_resend_with_amount p wallet config url req pr) _
                (pay-NoPanic url req pr)
                (λ (answer, amount).
                  NoPanic-bind (lift (check_budget p wallet config _)) _
                    (λ s. check_budget_ne_panic _) (λ within s h. cc h))))
          (λ s h. cc h))

  retry_loop-NoPanic :
      (attempts : ℕ) (url : String) (req : ChatRequest) (response : ChatResponse) (paid : ℕ)
      → NoPanic (retry_loop p wallet config attempts url req response paid)
  unfolding retry_loop
  retry_loop-NoPanic zero url req response paid = λ s h. cc h
  retry_loop-NoPanic (suc attempts) url req response paid =
      go (is_degraded p.unicode response)
        (λ next paid'. retry_loop-NoPanic attempts url req next paid')
    where
      go :
          (verdict : Option DegradedReason)
          → ((next : ChatResponse) (paid' : ℕ)
              → NoPanic (retry_loop p wallet config attempts url req next paid'))
          → let again : Exec World ClientError ChatResponse = elim verdict [
            | none ↦ pure response
            | some reason ↦ do
              probe_resp ←
                  send ClientError.network p.net
                    (post url (("X-Solvela-Retry-Reason", "degraded") ∷ []) req)
              (next, paid') ← answer_retry p wallet config url req paid probe_resp
              retry_loop p wallet config attempts url req next paid'
          ] in
            NoPanic again
      go none later = λ s h. cc h
      go (some reason) later =
          NoPanic-bind (send ClientError.network p.net _) _ (send-NoPanic _ p.net _) (λ resp.
            NoPanic-bind (answer_retry p wallet config url req paid resp) _
              (answer_retry-NoPanic url req paid resp) (λ (next, paid'). later next paid'))

  fetch-NoPanic : (req : ChatRequest) → NoPanic (fetch p wallet config req)
  unfolding fetch retry_if_degraded
  fetch-NoPanic req =
      NoPanic-bind (send_chat_request p wallet config (chat_url config) req) _
        (send_chat_request-NoPanic (chat_url config) req)
        (λ (response, paid).
          NoPanic-if config.enable_quality_check _ (pure response)
            (retry_loop-NoPanic config.max_quality_retries (chat_url config) req response paid)
            (λ s h. cc h))

  stream_headers-NoPanic : (resp : HttpResponse) → NoPanic (stream_headers p wallet config resp)
  unfolding stream_headers
  stream_headers-NoPanic resp =
      NoPanic-if (resp.status == 200) _ _ (λ s h. cc h)
        (NoPanic-if (resp.status == 402) _ _
          (parsed-NoPanic resp (parse_402 p wallet config) _ (λ body. try_ne_panic _ _)
            (λ pr.
              NoPanic-bind (sign_payment_for_402 p wallet config pr) _
                (sign_payment_for_402-NoPanic p wallet config total valid pr) (λ header s h. cc h)))
          (λ s h. cc h))

  open_events_ne_panic : (resp : HttpResponse) → open_events p wallet config resp ≢ panic
  unfolding open_events
  open_events_ne_panic resp h = ground arith

  open_stream-NoPanic : (req : ChatRequest) → NoPanic (open_stream p wallet config req)
  unfolding open_stream
  open_stream-NoPanic req =
      NoPanic-bind (send ClientError.network p.net _) _ (send-NoPanic _ p.net _) (λ resp.
        NoPanic-bind (stream_headers p wallet config resp) _ (stream_headers-NoPanic resp)
          (λ headers.
            NoPanic-bind (send ClientError.network p.net _) _ (send-NoPanic _ p.net _)
              (λ streamed s. open_events_ne_panic streamed)))

module _ (L : LruCache) (p : Platform) (total : IsTotal p.solana) where
  finish_ne_panic :
      (prepared : Prepared L) (r : Outcome ClientError ChatResponse × World)
      → r.0 ≢ panic
      → (finish L p prepared r).0 ≢ panic
  unfolding finish
  finish_ne_panic prepared (done response, w) steady h = cc h
  finish_ne_panic prepared (fail e, w) steady h = cc h
  finish_ne_panic prepared (panic, w) steady h = steady refl

  -- If the client's wallet holds an accepted keypair, the address of the token program is a key, the
  -- JSON of a payload can be made, and the crates sign every transaction of a transfer whose payer
  -- and authority are the key that signs: then neither a chat nor a streaming chat panics, whatever
  -- the servers answer; each returns a value or an error.
  pub chat_ne_panic :
      (req : ChatRequest) (client : SolvelaClient L) (w : World)
      → IsValid p.crypto client.wallet
      → ((chat L p req client w).0 ≢ panic) × ((chat_stream L p req client w).0 ≢ panic)
  unfolding chat chat_stream
  chat_ne_panic req client w valid = (
    elim (Option-cases (prepare L p client req w.clock).cached) [
      | inl missed ↦
          rw (chat, missed)
            (finish_ne_panic (prepare L p client req w.clock) _
              (fetch-NoPanic p client.wallet client.config total valid _ w))
      | inr (cached, hit) ↦ rw (chat, hit) (λ h. cc h)
    ],
    open_stream-NoPanic p client.wallet client.config total valid _ w,
  )
